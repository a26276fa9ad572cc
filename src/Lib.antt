-- ===== src/Lib.antt =====
-- Verification of TChannel for Node (node/) and of the Hyperbahn routing tier (hyperbahn/).
--
-- Hyperbahn is a set of nodes that route requests between services. Each node counts and limits
-- the requests that it passes (hyperbahn/rate_limiter.js, called from hyperbahn/service-proxy.js),
-- and breaks the circuit to an endpoint that fails too often (hyperbahn/circuits.js over the
-- states of hyperbahn/states.js and the state machine of hyperbahn/state_machine.js). Both stand on
-- the TChannel library in node/. There a request (node/request.js) is checked against the pending
-- counters (node/services.js), chooses peers over a heap (node/peer_heap.js), and is retried as its
-- errors are classed (node/errors.js); the other side answers with a response (node/out_response.js).
-- Both go over a connection as frames (node/v2), which cut arguments that are too long for one frame
-- and give them to the streams of the other side (node/argstream.js).
--
-- Files:
--   Hyperbahn/RateCounter: RateLimiterCounter of hyperbahn/rate_limiter.js; `buckets` is a list.
--   Hyperbahn/RateLimiter: RateLimiter of the same file, one function for each method, and in
--     Admission `rateLimit` of hyperbahn/service-proxy.js.
--   Hyperbahn/States: hyperbahn/states.js and hyperbahn/state_machine.js as a circuit runs them.
--   Hyperbahn/Circuits: hyperbahn/circuits.js, with the responses it watches.
--   Hyperbahn/EgressNodes: hyperbahn/egress-nodes.js over a ring, which is a parameter.
--   Node/PeerHeap: node/peer_heap.js, the heap of peers by score.
--   Node/Services: node/services.js, the counters of pending requests; in Sending how node/request.js
--     counts a request, has it checked, and takes it off where it is refused.
--   Node/Request: node/request.js, a request with its attempts over out requests.
--   Node/OutResponse: node/out_response.js, the states of an outgoing response.
--   Node/Operations: node/operations.js, the requests of a connection that are under way.
--   Node/ArgStream: InArgStream of node/argstream.js and node/streaming_in_request.js.
--   Node/V2: version 2 of the protocol, node/v2. Rw and Bufrw are what it uses of the bufrw package, as a
--     parameter with its laws; Header, Checksum, Tracing, Args and Call are the files of these names, with
--     node/v2/cont.js in Call; Sending is sendCallBodies and Receiving _handleCallFrame of
--     node/v2/handler.js. Streams, Delivery and Transfer join the
--     two sides.
--   Node/Errors: the classification of errors in node/errors.js, with node/retry-flags.js.
--
-- Numbers are natural numbers: a rate limit is a whole number of requests, and the maximal error
-- rate of a circuit a fraction, compared exactly where the source divides floating-point numbers.
-- A failed assert is `none`. Objects used as dictionaries are association lists in the order of
-- their keys. The clock is an argument, read once per call of a state. `shouldRequest` of a state
-- asks the state that replaced it; it runs on fuel 2, and always answers. The loops of the peer heap
-- run on fuel that the length of the array gives.
-- A buffer that is read is the list of its bytes from the offset on, and a writer gets the room that is
-- left and gives the bytes. Arguments are Buffers. The continuations of a call are sent on as many rounds as
-- their bytes and sizes, since each frame takes some; the reader of arguments runs on the length of
-- the buffer, since each argument takes two bytes at least. The hash functions are a parameter.
-- Not modelled: sockets, timers as events of the runtime (a timer's callback is a call of the
-- model), log lines, and what the packages do.
mod Prelude
pub mod Node
pub mod Hyperbahn
