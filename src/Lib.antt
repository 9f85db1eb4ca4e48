-- ===== src/Lib.antt =====
-- xchg: a network of peers that call each other's functions through routers.
--
-- A peer (xchg/) sends frames to a router over HTTP and polls it for those sent to its address; a
-- router (router/) stores the frames of each address for a few seconds. A call is one message: the
-- client seals it with the key of its session, cuts it into blocks and sends a frame for each; the
-- server puts the frames together, opens the message, tests its counter, asks the callback, and
-- answers in the same way. A session begins with an authentication by a nonce of the server.
--
-- The files, and the code that they are about:
--   Base, Maps      shared helpers: lists, machine integers, maps with integer keys
--   Bits            tables of the bits of bytes, for the masks of hashes and keys
--   Keys            utils/ec.go and utils/keys.go: the keys that a peer generates, addresses
--   Bytes           slices of bytes, `copy` and the little-endian numbers of encoding/binary
--   Texts           xchg/utils_errors.go: texts of errors and the tests on them
--   Crypto          utils/aes.go, utils/pack.go, utils/ec.go over the ciphers of Go's libraries
--   Sorting         `sort.Slice` by texts; Decimal: numbers of the package strconv
--   Logger          logger/logger.go: the log files of each day
--   Validator       validator/validator.go: the list of registered routers
--   Blockchain      blockchain/blockchain.go: the fund, networks and routers on Sui
--                   (Blockchain/Moves: move_types.go); Blockchain/Account:
--                   blockchain/router_account.go and main.go
--   Transaction     xchg/transaction.go: frames (Frame), `Parse`, `Marshal` and
--                   `AppendReceivedData` (Transaction); the blocks of a message
--   SnakeCounter    xchg/utils_snake_counter.go: the window that refuses repeated counters
--   Nonces          xchg/utils_nonces.go: the table of nonces
--   Storage         router/address_storage.go, router/message.go: the frames of one address
--   Router          router/router.go: `Put`, `GetMessages`, the clearing of addresses, Start, Stop,
--                   `CheckHash` (Router/Hash), the statistics (Router/Reports)
--   Framing         the loop that cuts a buffer into frames (router/http_server.go `processW`,
--                   xchg/peer_receiving.go `processFramesFromInternet`)
--   HttpServer      router/http_server.go: the handlers; HttpServer/Requests: `ServeHTTP`;
--                   HttpServer/Lifecycle: `Start` and `Stop`
--   Network         xchg/network.go: the routers that a peer knows
--   Remote          xchg/remote_peer.go: the client's side of a connection; Remote/Calls:
--                   `regularCall`, `auth` and `Call` over a network that is a parameter;
--                   Remote/Execution: `executeTransaction`; Remote/Sending: `httpCall`, `Send`;
--                   Remote/KeyRequest: the request for the transport key
--   Sessions        xchg/peer.go and xchg/peer_server.go: the state of a peer, authentication
--   Peer            xchg/peer_server.go: calls and sessions; Peer/Processing:
--                   xchg/peer_processing.go and xchg/peer_receiving.go; Peer/Direct: a transaction
--                   as one step of the server; Peer/Serving: `NewPeer` and the events of a server;
--                   Peer/Lifecycle: xchg/peer.go: `Start`, `Stop` and `thWork`;
--                   Peer/Clients: `Call`, the clients of a peer; Peer/Posting:
--                   xchg/peer_utils.go: `httpCall`; Peer/Polling: how it asks a router for its frames;
--                   Peer/Rounds: `getFramesFromRouter` as a whole; Peer/Relay: frames from one peer
--                   over the router to another;
--                   Peer/Delivered: the frames of a call, from the client to the server;
--                   Peer/Responses: those of the answer, back to the client; Peer/Line: a whole
--                   transaction over a line that loses nothing
--
-- Conventions. A byte and an unsigned integer is a natural number; `int` is its 64-bit pattern
-- (Base/Words), compared by `slt` where its sign matters. The clock and the random bytes that a
-- call reads are arguments. A panic is `none`. A slice that may be resliced beyond its length has
-- its capacity (Slice). What a peer decrypts and cuts is a list, and a cut behind its length
-- panics (the code tests the lengths before), though Go panics only behind the capacity. Each
-- method under the lock of its object is one step; where the code waits (RemotePeer.regularCall,
-- executeTransaction, auth, processR) it is cut into the steps between. The loop of Framing runs
-- on fuel: a round for each byte and one more are enough, unless it meets a length of 0, where no
-- fuel is. `blocks` runs on the length of the message, since each round takes a byte at least.
--
-- Ciphers, gzip, signatures and the curve are the fields of Crypto.Library, and Crypto.IsSound
-- says that opening undoes sealing and unpacking undoes packing; Crypto.IsGcm gives the sizes of
-- nonces and tags; IsCommuting (Peer/Auth) says that two parties get one key from X25519. The
-- callback of a server is a function of its parameter. The node of Sui and the JSON decoder are
-- the fields of Blockchain.Sui. The texts of dates and what the file system answers are arguments
-- of Logger. Base64 is HttpServer.Requests.Base64, and an HTTP request is a function of the URL
-- and the form's field.
--
-- Not modelled: HTTP itself and its headers, the parsing of forms, the JSON of the router's texts,
-- key files, the generation of keys by the libraries, what is printed, xchg/cheque.go, which is
-- commented out, `StartServerPeer` and `StartClientPeer`, which call `NewPeer` and `Start` in turn,
-- and the samples, which call the library in endless loops.
pub mod Base
pub mod Bits
pub mod Blockchain
pub mod Bytes
pub mod Crypto
pub mod Decimal
pub mod Framing
pub mod HttpServer
pub mod Keys
pub mod Logger
pub mod Maps
pub mod Network
pub mod Nonces
pub mod Peer
pub mod Remote
pub mod Router
pub mod Sessions
pub mod SnakeCounter
pub mod Sorting
pub mod Storage
pub mod Texts
pub mod Transaction
pub mod Validator
