-- ===== src/Service/Lifecycle/Reshares.antt =====
-- service/reshare.go over its life.
use alice_tss.Base.{
  ◌≡◌, refl, true, false, Option, none, some, List, Text, lookup, ok, panic,
  close_of_closed_channel,
}
use alice_tss.Libs.{Libs, ReshareOutcome}
use alice_tss.Peer.Manager.{get_protocol}
use alice_tss.Store.Handler.{HandlerData}
use alice_tss.Service.Node.{
  MainState, state_init, state_done, state_failed, Machine, Service, Node, remove_stream_handler,
  next,
}
use alice_tss.Service.Reshare.{handle_reshare, on_reshare_state_changed}
use alice_tss.Service.Lifecycle.{
  Event, ends, Ends, IsEnd, process, machine_after, node_after, node_after_lem, process_returns,
}
use alice_tss.Service.Lifecycle.Services.{
  UpdateCalm, with_store, removed, written_goes_on, close_done_closed, close_done_open,
}

module _ (l : Libs) (m : Machine ReshareOutcome) {S : Type 0} (h : HandlerData S) where
  abbrev stored : Text → Option ReshareOutcome → Node S → Node S
  stored hash none n = n
  stored hash (some d) n = with_store n (h.update_dkg_result_data n.store hash d).1

  -- How a resharing leaves the node: without its stream handler, and with the new share in the store where
  -- it is done and there is one.
  abbrev pub reshare_leaves : MainState → m.M → Text → Node S → Node S
  reshare_leaves state_init x hash n = n
  reshare_leaves state_failed x hash n = remove_stream_handler (get_protocol hash) n
  reshare_leaves state_done x hash n =
      stored hash (m.get_result x) (remove_stream_handler (get_protocol hash) n)

module _ (l : Libs) (m : Machine ReshareOutcome) {S : Type 0} (h : HandlerData S) where
  -- The node's store takes an update for the hash without a panic.
  abbrev pub Takes : Text → Node S → Type 0
  Takes hash n = UpdateCalm h n.store hash

  reshare_done :
      (result : Option ReshareOutcome) (p : Service m.M) (n : Node S)
      → m.get_result p.machine ≡ result
      → Takes p.hash n
      → p.done_closed ≡ false
      → on_reshare_state_changed l m h state_done p n
        ≡ ok (record p { done_closed = true }, reshare_leaves l m h state_done p.machine p.hash n)
  unfolding on_reshare_state_changed
  reshare_done none p n e calm o = rw (e, close_done_open p n o) refl
  reshare_done (some d) p n e calm o =
      let q : Service m.M = record p { done_closed = true } in
      let n1 = remove_stream_handler (get_protocol p.hash) n in
      rw (e, close_done_open p n o)
        (written_goes_on q n1 (h.update_dkg_result_data n1.store p.hash d) (calm _))

  reshare_once :
      (s : MainState) (p : Service m.M) (n : Node S)
      → IsEnd s
      → Takes p.hash n
      → p.done_closed ≡ false
      → on_reshare_state_changed l m h s p n
        ≡ ok (record p { done_closed = true }, reshare_leaves l m h s p.machine p.hash n)
  unfolding on_reshare_state_changed
  reshare_once state_init p n i calm o = absurd i
  reshare_once state_done p n i calm o = reshare_done (m.get_result p.machine) p n refl calm o
  reshare_once state_failed p n i calm o = close_done_open p n o

  reshare_twice :
      (s : MainState) (p : Service m.M) (n : Node S)
      → IsEnd s
      → p.done_closed ≡ true
      → on_reshare_state_changed l m h s p n ≡ panic close_of_closed_channel
  unfolding on_reshare_state_changed
  reshare_twice state_init p n i c = absurd i
  reshare_twice state_done p n i c = rw (close_done_closed p n c)
  reshare_twice state_failed p n i c = close_done_closed p n c

  reshare_Ends :
      Ends
        (handle_reshare l m h)
        (on_reshare_state_changed l m h)
        (next m)
        (reshare_leaves l m h)
        Takes
  unfolding handle_reshare on_reshare_state_changed
  reshare_Ends = record {
    takes = λ p x. refl;
    at_init = λ p n. refl;
    when_closed = reshare_twice;
    when_open = reshare_once;
  }

  reshare_stored :
      (hash : Text) (n : Node S) (o : Option ReshareOutcome)
      → lookup
          (get_protocol hash)
          (stored l m h hash o (remove_stream_handler (get_protocol hash) n)).handlers
        ≡ none
  reshare_stored hash n none = removed hash n
  reshare_stored hash n (some d) = removed hash n

  reshare_removed :
      (hash : Text) (n : Node S) (s : MainState) (x : m.M)
      → IsEnd s
      → lookup (get_protocol hash) (reshare_leaves l m h s x hash n).handlers ≡ none
  reshare_removed hash n state_init x i = absurd i
  reshare_removed hash n state_failed x i = removed hash n
  reshare_removed hash n state_done x i = reshare_stored hash n (m.get_result x)

  -- Over any messages and state changes of which exactly one is an end, done or failed, the process
  -- of a resharing whose channel is open returns, where no update of the node's store for its hash panics, with its
  -- channel closed and with the protocol that has taken in all the messages and was stopped; the
  -- host has no stream handler for its hash any more, and the store is as that end leaves it: after
  -- the write of the protocol's new share if it was done and there was one, and as before otherwise.
  pub reshare_process_returns :
      (r : List Event) (p : Service m.M) (n : Node S)
      → Takes p.hash n
      → p.done_closed ≡ false
      → ends r ≡ 1
      → (process m.start m.stop (handle_reshare l m h) (on_reshare_state_changed l m h) r p n
          ≡ ok (
              some (
                record p {
                  machine = m.stop (machine_after (next m) r (m.start p.machine));
                  done_closed = true;
                },
                node_after (reshare_leaves l m h) (next m) r (m.start p.machine) p.hash n,
              )))
        × (lookup
              (get_protocol p.hash)
              (node_after (reshare_leaves l m h) (next m) r (m.start p.machine) p.hash n).handlers
            ≡ none)
  reshare_process_returns r p n calm o one = (
    process_returns reshare_Ends m.start m.stop r p n calm o one,
    node_after_lem (reshare_leaves l m h) (next m)
        (λ n'. lookup (get_protocol p.hash) n'.handlers ≡ none) p.hash n (reshare_removed p.hash n)
        r (m.start p.machine) one,
  )
