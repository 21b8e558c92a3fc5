-- ===== src/Wallet/Receive.antt =====
-- ui/js/wallet.js: the receive tab (`generateAddress`), the URIs and the calls it makes. `I` is the type of the answer
-- of getaddressinfo. `generateAddress` is cut at its two awaits; `encode` is encodeURIComponent.
use bitcoin_lisp.Prelude.{
  [], ◌∷◌, ◌++◌, Bool, true, false, Option, none, some, Outcome, ok, err, Text, codes, trim,
}

abbrev label_part : (Text → Text) → Text → Text
label_part encode [] = []
label_part encode (c ∷ cs) = codes "?label=" ++ encode (c ∷ cs)

-- `bip21Uri`
unfoldable pub bip21_uri : (Text → Text) → Text → Text → Text
bip21_uri encode address label = codes "bitcoin:" ++ address ++ label_part encode label

-- `walletEndpoint`
unfoldable pub wallet_endpoint : (Text → Text) → Text → Text
wallet_endpoint encode name = codes "/wallet/" ++ encode name

pub record Received (I : Type 0) : Type 0 where
  pub address : Text
  pub label : Text
  pub address_type : Text
  pub uri : Text
  pub info : Option I

-- `receive` is what the card shows.
pub record ReceiveTab (I : Type 0) : Type 0 where
  pub receive : Option (Received I)
  pub error : Option Text
  pub button_disabled : Bool

module _ {I : Type 0} where
  -- The parameters of getnewaddress: the trimmed label and the type.
  unfoldable pub begin_generate : Text → Text → ReceiveTab I → ReceiveTab I × (Text × Text)
  begin_generate label address_type t =
      (record t { error = none; button_disabled = true }, (trim label, address_type))

  -- The answer of getnewaddress; the Boolean says whether getaddressinfo is called.
  unfoldable pub address_answer :
      (Text → Text) → Text × Text → Outcome Text Text → ReceiveTab I → ReceiveTab I × Bool
  address_answer encode asked (err e) t =
      (record t { error = some e; button_disabled = false }, false)
  address_answer encode asked (ok address) t = (
    record t {
      receive = some (record {
        address = address;
        label = asked.0;
        address_type = asked.1;
        uri = bip21_uri encode address asked.0;
        info = none;
      });
    },
    true,
  )

  abbrev with_info : Option I → Option (Received I) → Option (Received I)
  with_info info none = none
  with_info none (some r) = some r
  with_info (some i) (some r) = some (record r { info = some i })

  -- The answer of getaddressinfo, for the address that is still shown; its error is passed over.
  unfoldable pub info_answer : Option I → ReceiveTab I → ReceiveTab I
  info_answer info t = record t { receive = with_info info t.receive; button_disabled = false }
