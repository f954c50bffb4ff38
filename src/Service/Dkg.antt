-- ===== src/Service/Dkg.antt =====
-- service/dkg.go
pub mod Protocols
pub mod Ending
use alice_tss.Base.{
  List, ◌-◌, length, ltb, drop, slice_out_of_range, ◌≡◌, Bool, true, false, Option, none, some, [],
  ◌∷◌, Text, Bytes, codes, ◌==◌, Result, Done, ok, err, panic, ◌>>=◌, if◌then◌else◌, ◌||◌,
}
use alice_tss.Types.{DkgConfig}
use alice_tss.Libs.{DkgOutcome}
use alice_tss.Peer.Manager.{get_protocol}
use alice_tss.Store.Handler.{HandlerData}
use alice_tss.Service.Node.{
  MainState, state_init, state_done, state_failed, Machine, Service, Node, set_stream_handler,
  close_channel, close_done, written, taken_in,
}

-- `strings.Contains(hash, "-")`
abbrev pub contains_dash : Text → Bool
contains_dash [] = false
contains_dash (c ∷ s) = c == b'-' || contains_dash s

-- `strings.Split(hash, "-")[0]`
abbrev pub before_dash : Text → Text
before_dash [] = []
before_dash (c ∷ s) = let rest = before_dash s in if c == b'-' then [] else c ∷ rest

-- The protocol whose streams the service of a hash handles: what follows a dash is left out.
unfoldable pub stream_protocol : Text → Text
stream_protocol hash =
    if contains_dash hash then get_protocol (before_dash hash) else get_protocol hash

-- `getPort`: the last five characters of the first address of the host. `NewDkgService` only logs it, and
-- leaves it out below: a host that listens on TCP has an address that is longer.
unfoldable pub get_port : List Text → Result Text
get_port [] = panic slice_out_of_range
get_port (addr ∷ addrs) =
    if ltb (length addr) 5 then panic slice_out_of_range else ok (drop (length addr - 5) addr)

module _ (m : Machine DkgOutcome) {S : Type 0} (h : HandlerData S) where
  -- `NewDkgService`, over what `dkg.NewDKG` returns for the configuration.
  unfoldable pub new_dkg_service :
      (DkgConfig → Result m.M) → DkgConfig → Text → Node S → Result (Service m.M × Node S)
  unfolding stream_protocol
  new_dkg_service new_dkg config hash n = do
    d ← new_dkg config
    ok (
      record { machine = d; hash = hash; done_closed = false },
      set_stream_handler (stream_protocol hash) hash n,
    )

  -- `Handle`, over what is read from the stream.
  unfoldable pub handle_dkg : Service m.M → Option Bytes → Service m.M
  handle_dkg p read = taken_in m p read

  abbrev pub kept : Service m.M → Node S → Option DkgOutcome → Result (Service m.M × Node S)
  kept p n (some result) = written p n (h.save_dkg_result_data n.store p.hash result)
  kept p n none = ok (p, n)

  -- `OnStateChanged`, as a whole; Service/Dkg/Ending.antt has it step by step, with the return of `Process` in
  -- between. Both ends close the channel, and leave the stream handler where it is.
  unfoldable pub on_dkg_state_changed :
      MainState → Service m.M → Node S → Result (Service m.M × Node S)
  on_dkg_state_changed state_failed p n = close_channel p >>= λ q. ok (q, n)
  on_dkg_state_changed state_done p n =
      let result = m.get_result p.machine in close_channel p >>= λ q. kept q n result
  on_dkg_state_changed state_init p n = ok (p, n)

  -- `closeDone`, which nothing calls.
  unfoldable pub close_dkg_done : Service m.M → Node S → Result (Service m.M × Node S)
  close_dkg_done p n = close_done p n
