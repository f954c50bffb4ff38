-- ===== src/Service/Lifecycle/Dkgs.antt =====
-- service/dkg.go over its life.
use alice_tss.Base.{
  ◌≡◌, refl, true, false, Option, none, some, List, Text, ok, panic, close_of_closed_channel,
}
use alice_tss.Libs.{DkgOutcome}
use alice_tss.Store.Handler.{HandlerData}
use alice_tss.Service.Node.{
  MainState, state_init, state_done, state_failed, Machine, Service, Node, next,
}
use alice_tss.Service.Dkg.{handle_dkg, on_dkg_state_changed}
use alice_tss.Service.Lifecycle.{
  Event, ends, Ends, IsEnd, process, machine_after, node_after, node_after_lem, process_returns,
}
use alice_tss.Service.Lifecycle.Services.{SaveCalm, with_store, close_channel_open, written_goes_on}

module _ (m : Machine DkgOutcome) {S : Type 0} (h : HandlerData S) where
  abbrev stored : Text → Option DkgOutcome → Node S → Node S
  stored hash none n = n
  stored hash (some d) n = with_store n (h.save_dkg_result_data n.store hash d).1

  -- How a key generation leaves the node: with all its stream handlers, and with the outcome in the store
  -- where it is done and there is one.
  abbrev pub dkg_leaves : MainState → m.M → Text → Node S → Node S
  dkg_leaves state_init x hash n = n
  dkg_leaves state_failed x hash n = n
  dkg_leaves state_done x hash n = stored hash (m.get_result x) (n)

module _ (m : Machine DkgOutcome) {S : Type 0} (h : HandlerData S) (calm : SaveCalm h) where
  dkg_done :
      (result : Option DkgOutcome) (p : Service m.M) (n : Node S)
      → m.get_result p.machine ≡ result
      → p.done_closed ≡ false
      → on_dkg_state_changed m h state_done p n
        ≡ ok (record p { done_closed = true }, dkg_leaves m h state_done p.machine p.hash n)
  unfolding on_dkg_state_changed
  dkg_done none p n e o = rw (e, close_channel_open p o) refl
  dkg_done (some d) p n e o =
      let q : Service m.M = record p { done_closed = true } in
      rw (e, close_channel_open p o)
        (written_goes_on q n (h.save_dkg_result_data n.store p.hash d) (calm n.store p.hash _))

  dkg_once :
      (s : MainState) (p : Service m.M) (n : Node S)
      → IsEnd s
      → p.done_closed ≡ false
      → on_dkg_state_changed m h s p n
        ≡ ok (record p { done_closed = true }, dkg_leaves m h s p.machine p.hash n)
  unfolding on_dkg_state_changed
  dkg_once state_init p n i o = absurd i
  dkg_once state_done p n i o = dkg_done (m.get_result p.machine) p n refl o
  dkg_once state_failed p n i o = rw (close_channel_open p o) refl

  dkg_twice :
      (s : MainState) (p : Service m.M) (n : Node S)
      → IsEnd s
      → p.done_closed ≡ true
      → on_dkg_state_changed m h s p n ≡ panic close_of_closed_channel
  unfolding on_dkg_state_changed
  dkg_twice state_init p n i c = absurd i
  dkg_twice state_done p n i c = rw c
  dkg_twice state_failed p n i c = rw c

  dkg_Ends :
      Ends (handle_dkg m h) (on_dkg_state_changed m h) (next m) (dkg_leaves m h) (λ hash n. Unit)
  unfolding handle_dkg on_dkg_state_changed
  dkg_Ends = record {
    takes = λ p x. refl;
    at_init = λ p n. refl;
    when_closed = dkg_twice;
    when_open = λ s p n i f o. dkg_once s p n i o;
  }

  dkg_stored :
      (hash : Text) (n : Node S) (o : Option DkgOutcome)
      → (stored m h hash o n).handlers ≡ n.handlers
  dkg_stored hash n none = refl
  dkg_stored hash n (some d) = refl

  dkg_removed :
      (hash : Text) (n : Node S) (s : MainState) (x : m.M)
      → IsEnd s
      → (dkg_leaves m h s x hash n).handlers ≡ n.handlers
  dkg_removed hash n state_init x i = absurd i
  dkg_removed hash n state_failed x i = refl
  dkg_removed hash n state_done x i = dkg_stored hash n (m.get_result x)

  -- Over any messages and state changes of which exactly one is an end, done or failed, the process
  -- of a key generation whose channel is open returns, where no save of an outcome panics, with its
  -- channel closed and with the protocol that has taken in all the messages and was stopped; the
  -- host still has all the stream handlers that it had, and the store is as that end leaves it:
  -- after the write of the protocol's outcome if it was done and there was one, and as before
  -- otherwise.
  pub dkg_process_returns :
      (r : List Event) (p : Service m.M) (n : Node S)
      → p.done_closed ≡ false
      → ends r ≡ 1
      → (process m.start m.stop (handle_dkg m h) (on_dkg_state_changed m h) r p n
          ≡ ok (
              some (
                record p {
                  machine = m.stop (machine_after (next m) r (m.start p.machine));
                  done_closed = true;
                },
                node_after (dkg_leaves m h) (next m) r (m.start p.machine) p.hash n,
              )))
        × ((node_after (dkg_leaves m h) (next m) r (m.start p.machine) p.hash n).handlers
            ≡ n.handlers)
  dkg_process_returns r p n o one = (
    process_returns dkg_Ends m.start m.stop r p n tt o one,
    node_after_lem (dkg_leaves m h) (next m) (λ n'. n'.handlers ≡ n.handlers) p.hash n
        (dkg_removed p.hash n) r (m.start p.machine) one,
  )
