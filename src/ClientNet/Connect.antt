-- ===== src/ClientNet/Connect.antt =====
-- lib/clientnet.cpp: making a client and connecting it. What boost::asio does is a parameter, with `E` for
-- the endpoints of a name.
use mathlib.Core.List.{List}
use netframework.Base.{
  Bool, true, false, ◌&&◌, Option, none, some, [], ◌∷◌, Bytes, ℤ, Result, ok, err, thrown, ◌>>=◌,
  ◌≡◌, refl,
}
use netframework.Serialisation.Number.{to_string}
use netframework.ClientNet.{ClientNet, verify_certificate}

-- Each call that can throw says whether it returns: `load_verify_file`, `resolve`, `connect`, and
-- `handshake` of a peer under the callback for its certificates.
pub record Library (E : Type 0) : Type 0 where
  pub load_verify_file : Bytes → Bool
  pub resolve : Bytes → Bytes → Option E
  pub connects : E → Bool
  pub handshake : E → (Bool → Bool) → Bool

abbrev or_throw : {A : Type 0} → Bool → A → Result A
or_throw true value = ok value
or_throw false value = err thrown

module _ {E : Type 0} (lib : Library E) where
  -- `ClientNet::ClientNet`, which loads the certificates that are trusted; `memory` is what `reply_` holds.
  unfoldable pub new_client : Bytes → Bytes → Result ClientNet
  new_client ssl_verify_file memory =
      or_throw (lib.load_verify_file ssl_verify_file) (record { reply = memory })

  unfoldable pub get_endpoints : Bytes → ℤ → Result E
  get_endpoints hostname port = elim (lib.resolve hostname (to_string port)) [
    | none ↦ err thrown
    | some endpoints ↦ ok endpoints
  ]

  -- `Impl::connect`: the peer that is connected.
  unfoldable pub connect_endpoints : E → Result E
  unfolding verify_certificate
  connect_endpoints endpoints = or_throw (lib.connects endpoints) endpoints >>= λ peer.
      or_throw (lib.handshake peer verify_certificate) peer

  -- `ClientNet::connect`
  unfoldable pub connect : Bytes → ℤ → Result E
  unfolding get_endpoints connect_endpoints
  connect addr port = get_endpoints addr port >>= connect_endpoints

-- Whether a callback accepts what was found about each certificate of a chain.
abbrev pub accepts_all : (Bool → Bool) → List Bool → Bool
accepts_all callback [] = true
accepts_all callback (preverified ∷ chain) = callback preverified && accepts_all callback chain

accepts_all-verify_certificate : (chain : List Bool) → accepts_all verify_certificate chain ≡ true
unfolding verify_certificate
accepts_all-verify_certificate [] = refl
accepts_all-verify_certificate (preverified ∷ chain) = accepts_all-verify_certificate chain

-- A handshake with verification of the peer calls the callback for the certificates of the peer's chain, each
-- with what was found about it, and ends well where all are accepted and the rest of it, `negotiates`, is well.
abbrev pub IsVerifying : {E : Type 0} → Library E → (E → List Bool) → (E → Bool) → Type 0
IsVerifying {E} lib chain negotiates =
    (peer : E) (callback : Bool → Bool)
    → lib.handshake peer callback ≡ (negotiates peer && accepts_all callback (chain peer))

-- Where the handshake of the library verifies the peer, a client connects to every server that its name
-- resolves to, that takes the connection and that negotiates, whatever was found about the certificates
-- of the server.
pub connect-verify_certificate :
    {E : Type 0} (lib : Library E) (chain : E → List Bool) (negotiates : E → Bool) (addr : Bytes)
    (port : ℤ) (peer : E)
    → IsVerifying lib chain negotiates
    → lib.resolve addr (to_string port) ≡ some peer
    → lib.connects peer ≡ true
    → negotiates peer ≡ true
    → connect lib addr port ≡ ok peer
unfolding connect get_endpoints connect_endpoints
connect-verify_certificate lib chain negotiates addr port peer verifying resolved connected well =
    rw
      (
        get_endpoints,
        resolved,
        connected,
        verifying peer verify_certificate,
        well,
        accepts_all-verify_certificate (chain peer),
      )
      refl
