-- ===== src/Service/Node.antt =====
-- What the three services share: alice's state machines, the host's stream handlers, and `done`.
use alice_tss.Base.{
  Bool, true, Option, none, some, Text, Bytes, Dict, insert, erase, Result, Done, ok, err, panic,
  ◌>>=◌, close_of_closed_channel, if◌then◌else◌,
}
use alice_tss.Peer.Manager.{get_protocol}

-- `types.MainState` of alice.
pub data MainState : Type 0 where
  state_init state_done state_failed : MainState

-- A protocol of alice with results of the type `Out`: how a message is decoded and taken in. `none`
-- stands for an error, which the services log and drop.
pub record Machine (Out : Type 0) : Type 1 where
  pub M : Type 0
  pub Message : Type 0
  pub unmarshal : Bytes → Option Message
  pub add_message : M → Message → Option M
  pub start : M → M
  pub stop : M → M
  pub get_result : M → Option Out

-- A running service: the protocol, the hash under which its result is stored, and whether `done` is
-- closed.
pub record Service (M : Type 0) : Type 0 where
  pub machine : M
  pub hash : Text
  pub done_closed : Bool

-- A node: which service handles the streams of each protocol, by its hash, and its store.
pub record Node (S : Type 0) : Type 0 where
  pub handlers : Dict Text
  pub store : S

-- `Host.SetStreamHandler` and `Host.RemoveStreamHandler`
abbrev pub set_stream_handler : {S : Type 0} → Text → Text → Node S → Node S
set_stream_handler protocol hash n = record n { handlers = insert protocol hash n.handlers }

abbrev pub remove_stream_handler : {S : Type 0} → Text → Node S → Node S
remove_stream_handler protocol n = record n { handlers = erase protocol n.handlers }

module _ {M : Type 0} where
  -- `close(p.done)`
  abbrev pub close_channel : Service M → Result (Service M)
  close_channel p =
      if p.done_closed then panic close_of_closed_channel else ok (record p { done_closed = true })

  module _ {S : Type 0} where
    -- `closeDone` of Signer and Reshare: the channel, then the stream handler.
    unfoldable pub close_done : Service M → Node S → Result (Service M × Node S)
    close_done p n = close_channel p >>= λ q. ok (q, remove_stream_handler (get_protocol p.hash) n)

    -- The store after a write; an error of the store is logged and dropped.
    abbrev pub written : Service M → Node S → Done × S → Result (Service M × Node S)
    written p n (ok _, s) = ok (p, record n { store = s })
    written p n (err _, s) = ok (p, record n { store = s })
    written p n (panic x, s) = panic x

module _ {Out : Type 0} (m : Machine Out) where
  abbrev added : m.M → Option m.M → m.M
  added s none = s
  added s (some s') = s'

  abbrev decoded : m.M → Option m.Message → m.M
  decoded s none = s
  decoded s (some message) = added s (m.add_message s message)

  -- What a read from a stream does to the protocol: what cannot be read, decoded or taken in is logged
  -- and dropped.
  abbrev pub next : m.M → Option Bytes → m.M
  next s none = s
  next s (some buf) = decoded s (m.unmarshal buf)

  -- The common body of the stream handlers.
  abbrev pub taken_in : Service m.M → Option Bytes → Service m.M
  taken_in p x = record p { machine = next p.machine x }
