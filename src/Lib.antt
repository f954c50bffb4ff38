-- ===== src/Lib.antt =====
-- Threshold ECDSA nodes.
--
-- A node of this program holds one share of a key. With its peers it generates keys, signs messages
-- and reshares, by the protocols of the library alice; the program itself stores the shares, moves the
-- messages between peers, and offers the operations to clients.
--
-- The parts, and the files that model them:
--   Base, Codec: helpers; lists of bytes, maps, results with errors and panics; decimal and hexadecimal
--     numbers, base64 and the CFB mode, as the standard library of Go has them.
--   Types, Json, Wire: types/tss.go, types/app.go, and the JSON form of those records.
--   Libs: what go-ethereum, alice and crypto/aes give, as functions with the laws that are relied on.
--   Utils/Encrypto: utils/encrypto.go. Utils/Convert, Utils/Keys: utils/utils.go.
--     Utils/Signature: utils/ecdsa.go.
--   Store/Backend: the database badger and encoding/json, by their contracts. Store/Fsm:
--     store/badger_fsm.go. Store/Badger: store/badger_handler.go; Store/Badger/Promise and Refine state
--     what that store promises, and Store/Badger/Steady what it takes for its writes not to panic.
--     Store/Mock: store/mock.go. Store/Handler: store/store.go.
--   Peer/Manager: peer/pm.go; the maps of peers live in a heap, since a clone of a manager shares its
--     map. Peer/Connecting: the goroutines of EnsureAllConnected, in peer/pm.go. Peer/Transport: peer/node.go.
--     Peer/Discovery: peer/discovery.go.
--   Steps: goroutines that are interleaved in any order, as steps on a list of them; what every step keeps, and
--     what comes about on every schedule.
--   Service/Node, Service/Dkg, Service/Signer, Service/Reshare: service/dkg.go, service/signer.go,
--     service/reshare.go; Service/Lifecycle runs a service over a list of events, the messages that it
--     takes in and the state changes that its protocol reports. Service/Continuity: the whole
--     process of a resharing over the badger store. Service/Sessions: all the signers
--     of one node, on its stream handlers. Service/Network: the signers of several nodes, and the messages from `MustSend` on one
--     to the stream handlers of another.
--   Server/Tss: server/tss.go. Server/Requests: server/utils.go and the client half of
--     server/rpc_peer.go; Server/Peers: its handlers. Server/Rpc: server/rpc_server.go.
--     Server/Grpc: server/grpc_server.go. Server/Agreement: where those servers do the same,
--     for signing, key generation and resharing;
--     Server/Order: the order of the map of peers does not matter to them. Server/Rpc/Keys: the life of a key
--     behind the handlers, from its generation to its signatures. Server/Cluster: the requests of one
--     node, answered by the handlers of the others; that gorpc finds those by the name of the service and the method is a hypothesis, `Routed`.
--     Server/Cluster/Keys: a key on all of its nodes, each over its own store: the
--     handlers of the peers that have replied to the call of the client's handler, and the goroutines that they
--     start, which are over before the next request of the client.
--     Server/SelfService: server/self_service.go, how its nodes are made, connected and closed.
--     Server/SelfService/Gather: the goroutines of the other two nodes, the wait group, the channel of their
--     errors and the select of the first node, for RegisterDKG as for SignMessage. Server/SelfService/Calls: what
--     the two operations call on each node, by what that select answers; Server/Rpc/Self: the handlers that go
--     there.
--   Main: main.go, InitRouter of server/rpc_server.go and StartGRPC of server/grpc_server.go.
--   Tests: the theorems at concrete inputs, over small functions that stand for the libraries.
--
-- State is passed on explicitly: an operation takes the database, the heap of maps or the node and
-- gives it back beside its result. A result is a value, an error or a panic (Base/Outcome). A Go map is
-- a list of entries with distinct keys; a loop over a map goes through them in the order of the list.
-- Numbers of the type big.Int are integers; a uint32 is cut off at 2 ^ 32 where it is computed.
-- The goroutine of `go service.Process()` is given back as a started service (`spawned`); what happens to
-- it is a run of Service/Lifecycle. There `OnStateChanged` is one step, and the node that a handler gives back is
-- the one once that call is over; in the source `Process` returns when `done` is closed, which comes before the
-- stream handler is removed and the result is saved. For a key generation Service/Dkg/Ending takes these apart,
-- with the return of `Process` at any point behind the close. What the network answers is an argument, by the number of the
-- attempt. The loop that retries until it succeeds runs on fuel: `Peer.Transport.Retry` has no result when
-- the fuel ends first, and any fuel beyond the first successful attempt is enough. The loop of `send`
-- makes its ten rounds and needs none.
--
-- A goroutine of the self service makes a call that does not wait, so that it ends, with an error or without;
-- what it then does to the wait group and the channel is a step, and so is each case of the select that is
-- ready. The calls of the three nodes write to hosts of their own and only the first node's call goes on to
-- write the store, after the select, so that they are composed in one order. `log.Crit` of sirius is taken to
-- end the process, without the deferred calls.
--
-- Not modelled: the protocols of alice, badger, libp2p, mDNS, gorpc, viper and the HTTP and gRPC servers, which
-- are libraries, with the time limit that `TimeoutHandler` of net/http puts on every handler: a handler that waits
-- goes on, but its client is answered by net/http; the panic of `CompressPubkey` of go-ethereum for a point off
-- the curve, which alice does not give; the manager that server/tss.go passes on to alice (the clone for a hash is
-- in Service/Network); the log of the port that `NewDkgService` reads; logging and sleeping; the declaration of the flags; and the generated code of pb.
pub mod Base
pub mod Steps
pub mod Codec
pub mod Types
pub mod Libs
pub mod Json
pub mod Utils
pub mod Wire
pub mod Store
mod Tests
pub mod Peer
pub mod Service
pub mod Server
pub mod Main
