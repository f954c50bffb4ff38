-- ===== src/Service/Lifecycle/Signers.antt =====
-- service/signer.go over its life.
use alice_tss.Base.{
  ◌≤◌, ◌≡◌, refl, true, false, Option, none, some, List, Text, lookup, erase, ok, panic,
  close_of_closed_channel,
}
use alice_tss.Libs.{Libs, SignOutcome}
use alice_tss.Peer.Manager.{get_protocol}
use alice_tss.Store.Handler.{HandlerData}
use alice_tss.Service.Node.{
  MainState, state_init, state_done, state_failed, Machine, Service, Node, remove_stream_handler,
  next,
}
use alice_tss.Service.Signer.{handle_signer, signature_of, on_signer_state_changed}
use alice_tss.Service.Lifecycle.{
  Event, ends, Ends, IsEnd, run, process, machine_after, node_after, node_after_lem, run_second_end,
  process_waits, process_returns,
}
use alice_tss.Service.Lifecycle.Services.{
  SignCalm, with_store, removed, written_goes_on, close_done_closed, close_done_open,
}

module _ (l : Libs) (m : Machine SignOutcome) {S : Type 0} (h : HandlerData S) where
  abbrev pub stored : Text → Option SignOutcome → Node S → Node S
  stored hash none n = n
  stored hash (some d) n =
      with_store n (h.save_signer_result_data n.store hash (signature_of hash d)).1

  -- How a signer leaves the node: without its stream handler, and with the signature in the store where it
  -- is done and there is one.
  abbrev pub signer_leaves : MainState → m.M → Text → Node S → Node S
  signer_leaves state_init x hash n = n
  signer_leaves state_failed x hash n = remove_stream_handler (get_protocol hash) n
  signer_leaves state_done x hash n =
      stored hash (m.get_result x) (remove_stream_handler (get_protocol hash) n)

  stored_handlers :
      (hash : Text) (o : Option SignOutcome) (n : Node S) → (stored hash o n).handlers ≡ n.handlers
  stored_handlers hash none n = refl
  stored_handlers hash (some d) n = refl

  -- An end takes the stream handler of the signer's hash away, and no other.
  pub signer_handlers :
      (s : MainState) (x : m.M) (hash : Text) (n : Node S)
      → IsEnd s
      → (signer_leaves s x hash n).handlers ≡ erase (get_protocol hash) n.handlers
  signer_handlers state_init x hash n i = absurd i
  signer_handlers state_failed x hash n i = refl
  signer_handlers state_done x hash n i =
      stored_handlers hash (m.get_result x) (remove_stream_handler (get_protocol hash) n)

module _ (l : Libs) (m : Machine SignOutcome) {S : Type 0} (h : HandlerData S)
    (calm : SignCalm h) where
  signer_done :
      (result : Option SignOutcome) (p : Service m.M) (n : Node S)
      → m.get_result p.machine ≡ result
      → p.done_closed ≡ false
      → on_signer_state_changed l m h state_done p n
        ≡ ok (record p { done_closed = true }, signer_leaves l m h state_done p.machine p.hash n)
  unfolding on_signer_state_changed
  signer_done none p n e o = rw (e, close_done_open p n o) refl
  signer_done (some d) p n e o =
      let q : Service m.M = record p { done_closed = true } in
      let n1 = remove_stream_handler (get_protocol p.hash) n in
      rw (e, close_done_open p n o)
        (written_goes_on q n1 (h.save_signer_result_data n1.store p.hash (signature_of p.hash d))
          (calm n1.store p.hash _))

  pub signer_once :
      (s : MainState) (p : Service m.M) (n : Node S)
      → IsEnd s
      → p.done_closed ≡ false
      → on_signer_state_changed l m h s p n
        ≡ ok (record p { done_closed = true }, signer_leaves l m h s p.machine p.hash n)
  unfolding on_signer_state_changed
  signer_once state_init p n i o = absurd i
  signer_once state_done p n i o = signer_done (m.get_result p.machine) p n refl o
  signer_once state_failed p n i o = close_done_open p n o

  pub signer_twice :
      (s : MainState) (p : Service m.M) (n : Node S)
      → IsEnd s
      → p.done_closed ≡ true
      → on_signer_state_changed l m h s p n ≡ panic close_of_closed_channel
  unfolding on_signer_state_changed
  signer_twice state_init p n i c = absurd i
  signer_twice state_done p n i c = rw (close_done_closed p n c)
  signer_twice state_failed p n i c = close_done_closed p n c

  signer_Ends :
      Ends
        (handle_signer l m h)
        (on_signer_state_changed l m h)
        (next m)
        (signer_leaves l m h)
        (λ hash n. Unit)
  unfolding handle_signer on_signer_state_changed
  signer_Ends = record {
    takes = λ p x. refl;
    at_init = λ p n. refl;
    when_closed = signer_twice;
    when_open = λ s p n i f o. signer_once s p n i o;
  }

  signer_stored :
      (hash : Text) (n : Node S) (o : Option SignOutcome)
      → lookup
          (get_protocol hash)
          (stored l m h hash o (remove_stream_handler (get_protocol hash) n)).handlers
        ≡ none
  signer_stored hash n none = removed hash n
  signer_stored hash n (some d) = removed hash n

  signer_removed :
      (hash : Text) (n : Node S) (s : MainState) (x : m.M)
      → IsEnd s
      → lookup (get_protocol hash) (signer_leaves l m h s x hash n).handlers ≡ none
  signer_removed hash n state_init x i = absurd i
  signer_removed hash n state_failed x i = removed hash n
  signer_removed hash n state_done x i = signer_stored hash n (m.get_result x)

  -- Over any messages and state changes of which exactly one is an end, done or failed, the process
  -- of a signer whose channel is open returns, where no save of a signature panics, with its channel
  -- closed and with the protocol that has taken in all the messages and was stopped; the host has no
  -- stream handler for its hash any more, and the store is as that end leaves it: after the write of
  -- the protocol's signature if it was done and there was one, and as before otherwise.
  pub signer_process_returns :
      (r : List Event) (p : Service m.M) (n : Node S)
      → p.done_closed ≡ false
      → ends r ≡ 1
      → (process m.start m.stop (handle_signer l m h) (on_signer_state_changed l m h) r p n
          ≡ ok (
              some (
                record p {
                  machine = m.stop (machine_after (next m) r (m.start p.machine));
                  done_closed = true;
                },
                node_after (signer_leaves l m h) (next m) r (m.start p.machine) p.hash n,
              )))
        × (lookup
              (get_protocol p.hash)
              (node_after (signer_leaves l m h) (next m) r (m.start p.machine) p.hash n).handlers
            ≡ none)
  signer_process_returns r p n o one = (
    process_returns signer_Ends m.start m.stop r p n tt o one,
    node_after_lem (signer_leaves l m h) (next m)
        (λ n'. lookup (get_protocol p.hash) n'.handlers ≡ none) p.hash n (signer_removed p.hash n) r
        (m.start p.machine) one,
  )

  -- Over any messages and state changes of which none is an end, the process of a signer whose
  -- channel is open goes on waiting.
  pub signer_process_waits :
      (r : List Event) (p : Service m.M) (n : Node S)
      → p.done_closed ≡ false
      → ends r ≡ 0
      → process m.start m.stop (handle_signer l m h) (on_signer_state_changed l m h) r p n ≡ ok none
  signer_process_waits = process_waits signer_Ends m.start m.stop

  -- Over any messages and state changes of which two or more are ends, a signer whose channel is open
  -- panics, where no save of a signature does: it closes the channel a second time.
  pub signer_second_end :
      (r : List Event) (p : Service m.M) (n : Node S)
      → p.done_closed ≡ false
      → 2 ≤ ends r
      → run (handle_signer l m h) (on_signer_state_changed l m h) r p n
        ≡ panic close_of_closed_channel
  signer_second_end r p n = run_second_end signer_Ends r p n tt
