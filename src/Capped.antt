-- ===== src/Capped.antt =====
-- node/src/token-response-cap.ts: a response body read up to a cap. A byte stream is its bytes and
-- what the transport does at each read: it delivers some of the bytes asked for, at least one, or
-- it fails. When the list is used up each read delivers one byte.
pub mod Laws
pub mod Chunks
pub mod Endpoint
use key_cloak_sdk.Common.{
  ℕ, zero, suc, ◌+◌, ◌-◌, ◌*◌, Bool, true, false, Option, none, some, List, [], ◌∷◌, ◌++◌, Str, lit,
  length, take, drop, min, max, ltb, leb, if◌then◌else◌, show, ◌||◌, not,
}
use key_cloak_sdk.Values.Json.{undefined, string}
use key_cloak_sdk.Errors.{Thrown, other, object, ErrorClass, error, too_large, no_cause, is_error}
use key_cloak_sdk.Outcome.{Outcome, ok, raise, ◌>>=◌}

-- `TOKEN_RESPONSE_MAX_BYTES`
abbrev pub token_response_max_bytes : ℕ
token_response_max_bytes = 1048576

-- `READ_CHUNK_BYTES`
abbrev pub read_chunk_bytes : ℕ
read_chunk_bytes = 16384

pub data Event : Type 0 where
  deliver : ℕ → Event
  fault : Thrown → Event

pub record Stream : Type 0 where
  pub bytes : Str
  pub events : List Event

pub data Read : Type 0 where
  done : Read
  chunk : Str → Stream → Read
  failed : Thrown → Read

unfoldable pub deliver_from : ℕ → List Event → Str → ℕ → Read
deliver_from k events [] size = done
deliver_from k events (b ∷ bs) size =
    let n = min size (max 1 k) in
    chunk (take n (b ∷ bs)) (record { bytes = drop n (b ∷ bs); events = events })

unfoldable pub read_from : List Event → Str → ℕ → Read
read_from [] bytes size = deliver_from 1 [] bytes size
read_from (deliver k ∷ events) bytes size = deliver_from k events bytes size
read_from (fault e ∷ events) bytes size = failed e

-- `reader.read(view)`, for a view of `size` bytes.
unfoldable pub read : Stream → ℕ → Read
read s size = read_from s.events s.bytes size

-- `new ResponseTooLargeError(limit)`
unfoldable pub response_too_large_error : ℕ → Thrown
response_too_large_error limit =
    object
      (record {
        class = too_large limit;
        name = string (lit "ResponseTooLargeError");
        message = lit "response body exceeds " ++ (show limit ++ lit " bytes");
        code = undefined;
        stack = none;
        status = none;
        response_data = undefined;
      })
      no_cause

-- The `RangeError` of `buffer.set(value, length)` where the value does not fit.
unfoldable pub range_error : Thrown
range_error =
    object
      (record {
        class = error;
        name = string (lit "RangeError");
        message = lit "offset is out of bounds";
        code = undefined;
        stack = none;
        status = none;
        response_data = undefined;
      })
      no_cause

-- The bytes read so far and the size of the buffer that holds them.
pub record Buffer : Type 0 where
  pub stored : Str
  pub capacity : ℕ

-- The body of the loop behind the read: the buffer grows where the value does not fit.
unfoldable pub store : ℕ → Buffer → Str → Outcome Buffer
store limit b value =
    let needed = length b.stored + length value in
    let capacity =
      if ltb b.capacity needed then min (max (b.capacity * 2) needed) limit else b.capacity in
    if ltb capacity needed
    then raise range_error
    else ok (record { stored = b.stored ++ value; capacity = capacity })

-- The loop of `readCapped`. Each read takes at least one byte, so one round more than there are
-- bytes is enough fuel.
unfoldable pub read_loop : ℕ → ℕ → Buffer → Stream → Outcome Buffer
read_loop zero limit b s = raise no_cause
read_loop (suc fuel) limit b s = elim (ltb (length b.stored) limit) [
  | false ↦ ok b
  | true ↦ elim (read s (min (min read_chunk_bytes limit) (limit - length b.stored))) [
    | done ↦ ok b
    | failed e ↦ raise e
    | chunk value rest ↦ elim (store limit b value) [
      | raise e ↦ raise e
      | ok grown ↦ read_loop fuel limit grown rest
    ]
  ]
]

-- `readCapped(body, cap)`, for a byte stream.
unfoldable pub read_capped : Stream → ℕ → Outcome Str
read_capped body cap = do
  let limit = cap + 1
  b ←
      read_loop (length body.bytes + 1) limit
        (record { stored = []; capacity = min read_chunk_bytes limit }) body
  if ltb cap (length b.stored) then raise (response_too_large_error cap) else ok b.stored

-- `readCappedChunks`: the loop of the default reader, which gets the chunks as they come.
unfoldable pub chunks_loop : ℕ → ℕ → Str → Stream → Outcome Str
chunks_loop zero cap out s = raise no_cause
chunks_loop (suc fuel) cap out s = elim (read s (max 1 (length s.bytes))) [
  | done ↦ ok out
  | failed e ↦ raise e
  | chunk value rest ↦
      let longer = chunks_loop fuel cap (out ++ value) rest in
      if ltb cap (length out + length value) then raise (response_too_large_error cap) else longer
]

unfoldable pub read_capped_chunks : Stream → ℕ → Outcome Str
read_capped_chunks body cap = chunks_loop (length body.bytes + 1) cap [] body

-- The limit of a `ResponseTooLargeError`.
unfoldable pub limit_of : ErrorClass → Option ℕ
limit_of (too_large limit) = some limit
limit_of _ = none

-- `responseTooLarge(error)` from the depth `depth` on; the answer is the link's message.
unfoldable pub response_too_large_from : ℕ → Thrown → Option Str
response_too_large_from depth (other v) = none
response_too_large_from depth (object f cause) =
    let deeper = response_too_large_from (depth + 1) cause in
    if leb 8 depth || not (is_error f.class)
    then none
    else elim (limit_of f.class) [ none ↦ deeper | some limit ↦ some f.message ]

unfoldable pub response_too_large : Thrown → Option Str
unfolding response_too_large_from
response_too_large e = response_too_large_from 0 e

-- The response that a bounded fetch hands on: the one it got, or a new one with the body read.
pub data Handed : Type 0 where
  as_is : Option Stream → Handed
  rebuilt : Str → Handed

-- `fetchTokenEndpointBounded` behind `fetch`, for a response with this status and body.
unfoldable pub fetch_token_endpoint_bounded : ℕ → Option Stream → Outcome Handed
fetch_token_endpoint_bounded status none = ok (as_is none)
fetch_token_endpoint_bounded status (some body) =
    if ltb status 200 || ltb 599 status
    then ok (as_is (some body))
    else (do bytes ← read_capped body token_response_max_bytes; ok (rebuilt bytes))
