-- ===== src/Service/Signer.antt =====
-- service/signer.go
use alice_tss.Base.{Text, Bytes, false, Option, none, some, Result, ok, ◌>>=◌}
use alice_tss.Types.{SignerConfig, RvSignature}
use alice_tss.Libs.{Libs, DkgOutcome, SignOutcome}
use alice_tss.Codec.BigInt.{int_bytes}
use alice_tss.Codec.Hex.{hex_encode}
use alice_tss.Peer.Manager.{get_protocol}
use alice_tss.Utils.Convert.{convert_dkg_result}
use alice_tss.Utils.Keys.{to_hex_hash}
use alice_tss.Store.Handler.{HandlerData}
use alice_tss.Service.Node.{
  MainState, state_init, state_done, state_failed, Machine, Service, Node, set_stream_handler,
  close_done, written, taken_in,
}

-- `hex.EncodeToString(x.Bytes())` of both parts, beside the hash of the message.
unfoldable pub signature_of : Text → SignOutcome → RvSignature
signature_of hash result = record {
  r = hex_encode (int_bytes result.r);
  s = hex_encode (int_bytes result.s);
  hash = hash;
}

module _ (l : Libs) (m : Machine SignOutcome) {S : Type 0} (h : HandlerData S) where
  -- `createSigner`, over what `paillier.NewPaillier` and `signer.NewSigner` return. The message is read
  -- as hexadecimal.
  unfoldable pub create_signer :
      {P : Type 0}
      → Result P
      → (P → DkgOutcome → Bytes → Result m.M)
      → SignerConfig
      → Text
      → Result m.M
  create_signer new_paillier new_signer config msg = do
    paillier ← new_paillier
    dkg_result ← convert_dkg_result l config.pubkey config.share config.bks
    new_signer paillier dkg_result (l.hex_to_bytes msg)

  -- `NewSignerService`: the hash is that of the message, and names the protocol.
  unfoldable pub new_signer_service :
      {P : Type 0}
      → Result P
      → (P → DkgOutcome → Bytes → Result m.M)
      → SignerConfig
      → Text
      → Node S
      → Result (Service m.M × Node S)
  unfolding create_signer
  new_signer_service new_paillier new_signer config msg n = do
    signer ← create_signer new_paillier new_signer config msg
    let hash = to_hex_hash l msg
    ok (
      record { machine = signer; hash = hash; done_closed = false },
      set_stream_handler (get_protocol hash) hash n,
    )

  -- `Handle`, over what is read from the stream. A service has its signer from the start.
  unfoldable pub handle_signer : Service m.M → Option Bytes → Service m.M
  handle_signer p read = taken_in m p read

  abbrev kept : Service m.M → Node S → Option SignOutcome → Result (Service m.M × Node S)
  kept p n (some result) =
      written p n (h.save_signer_result_data n.store p.hash (signature_of p.hash result))
  kept p n none = ok (p, n)

  -- `OnStateChanged`
  unfoldable pub on_signer_state_changed :
      MainState → Service m.M → Node S → Result (Service m.M × Node S)
  unfolding close_done
  on_signer_state_changed state_failed p n = close_done p n
  on_signer_state_changed state_done p n =
      let result = m.get_result p.machine in close_done p n >>= λ (q, n'). kept q n' result
  on_signer_state_changed state_init p n = ok (p, n)
