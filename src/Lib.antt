-- ===== src/Lib.antt =====
-- The browser UI of the node (ui/js): pages of plain JavaScript modules over the node's JSON-RPC interface.
--
-- ui/js/qr.js, which draws the payment URI of the receive screen, is Qr: Tables (RS_BLOCKS_M, ALIGN_POS), Field
-- (the tables of the finite field and rsEcBytes), Bch (bchRemainder, formatBits, versionBits), Version
-- (pickVersion), Codewords (buildCodewords), Matrix (baseMatrix), Place (placeData, writeFormatAndVersion),
-- Penalty (penalty), Encode (qrEncode and its choice of the mask). A matrix is a list of rows of numbers 0 and
-- 1. The `while` loop of bchRemainder has fuel 32, which is enough for a value of 32 bits; the loop of
-- placeData over the rows of a column has one round more than there are rows. The loop over the versions has 40
-- rounds, that over the masks 8.
--
-- ui/js/console.js is Console: Tokens (tokenize), Args (convertArg, parseCommandLine, parseJsonParams), Complete
-- (the help text, the word list, the completions), History (createHistory),
-- Page (the page's state, its keys and submit, which is cut at its `await`).
--
-- ui/js/wallet.js, ui/js/wallet-crypt.js and ui/js/wallet-psbt.js are Wallet: Amount (normalizeAmount, fmtSatsBtc), Address (validateAddress),
-- Recipients (validateRecipients, buildSendCall), Unlock (encryptionState, the form checks, withUnlocked), Send (the
-- send tab, its review and confirm as events that come in any order), Psbt (the PSBT panel's conditions).
--
-- ui/js/rpc.js is Rpc (credentials, post, call, batch), ui/js/app.js is App (the poll scheduler, cut at the
-- `await` of a poll, and the login form), ui/js/explorer.js is Explorer (renderBlockTxPage, search) Explorer.Tx (txStatus, resolvePrevouts) and Explorer.Visits (showBlock, showTx, cut at their awaits),
-- ui/js/router.js is Router (parse), ui/js/peers.js is Peers (decodeServices, peerNetwork, sortPeers) and Peers.Armed (armedButton), ui/js/format.js
-- is Format (fmtDuration, shortHash, shortId); Wallet.Listing has the pages of the wallet's
-- history and refreshWalletList, Wallet.Forms the forms of the security tab, Wallet.Security its panel and promptUnlock, and
-- Wallet.Visibility haveWallet and renderVisibility, Wallet.PsbtTab the PSBT tab (loadPsbt, signPsbt, broadcastPsbt),
-- Wallet.Shell the poll and the selected wallet (refresh, selectWallet, show, resetWallet), Wallet.Bump the fee bump
-- (bumpFeeControls), Wallet.Book the address book, Wallet.Receive the receive tab, and App.Routes the views of app.js (handleRoute). The fuel of Explorer.Tx.resolve_chunks is the number of the ids
-- that are asked for, and each step takes at least one of them.
--
-- Texts are lists of UTF-16 code units. Prelude holds the helpers that the parts share. What the browser does
-- (JSON.parse, Number, sessionStorage, the answers of the node and of the user) is an argument of the
-- definitions that use it. The DOM, rendering and float formatting are not modelled; neither is the node itself,
-- which is another program behind its RPC interface.
pub mod App
pub mod Console
pub mod Explorer
pub mod Format
pub mod Peers
pub mod Prelude
pub mod Qr
pub mod Router
pub mod Rpc
pub mod Wallet
