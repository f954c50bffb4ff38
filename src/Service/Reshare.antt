-- ===== src/Service/Reshare.antt =====
-- service/reshare.go
use alice_tss.Base.{Text, Bytes, false, Option, none, some, Result, ok, ◌>>=◌}
use alice_tss.Types.{ReshareConfig}
use alice_tss.Libs.{Libs, DkgOutcome, ReshareOutcome}
use alice_tss.Peer.Manager.{get_protocol}
use alice_tss.Utils.Convert.{convert_dkg_result}
use alice_tss.Store.Handler.{HandlerData}
use alice_tss.Service.Node.{
  MainState, state_init, state_done, state_failed, Machine, Service, Node, set_stream_handler,
  close_done, written, taken_in,
}

module _ (l : Libs) (m : Machine ReshareOutcome) {S : Type 0} (h : HandlerData S) where
  -- `NewReshareService`, over what `reshare.NewReshare` returns.
  unfoldable pub new_reshare_service :
      (ReshareConfig → DkgOutcome → Result m.M)
      → ReshareConfig
      → Text
      → Node S
      → Result (Service m.M × Node S)
  new_reshare_service new_reshare config hash n = do
    dkg_result ← convert_dkg_result l config.pubkey config.share config.bks
    r ← new_reshare config dkg_result
    ok (
      record { machine = r; hash = hash; done_closed = false },
      set_stream_handler (get_protocol hash) hash n,
    )

  -- `Handle`, over what is read from the stream.
  unfoldable pub handle_reshare : Service m.M → Option Bytes → Service m.M
  handle_reshare p read = taken_in m p read

  abbrev kept : Service m.M → Node S → Option ReshareOutcome → Result (Service m.M × Node S)
  kept p n (some result) = written p n (h.update_dkg_result_data n.store p.hash result)
  kept p n none = ok (p, n)

  -- `OnStateChanged`
  unfoldable pub on_reshare_state_changed :
      MainState → Service m.M → Node S → Result (Service m.M × Node S)
  unfolding close_done
  on_reshare_state_changed state_failed p n = close_done p n
  on_reshare_state_changed state_done p n =
      let result = m.get_result p.machine in close_done p n >>= λ (q, n'). kept q n' result
  on_reshare_state_changed state_init p n = ok (p, n)
