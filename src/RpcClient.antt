-- ===== src/RpcClient.antt =====
-- server/pkg/rpcclient/client.go. The HTTP client is the parameter `http`, the client's own or Go's
-- default one; JSON is the parameter `codec`, and the decoding of a result is an argument of a call.
pub mod Replies
use moblog_cloud.Prelude.{
  GoString, codes, ◌==◌, nat_eq, not, [], ◌++◌, message, Result, ok, err, panic, wrap, wrap_err,
  if◌then◌else◌,
}
use moblog_cloud.Http.{HttpReply, HttpClient, status_ok}
use moblog_cloud.IdGenerator.{StringIdGenerator, format_uint, next}

pub record RpcCall (P : Type 0) : Type 0 where
  pub id : GoString
  pub method : GoString
  pub params : P

pub record RpcReply : Type 0 where
  pub id : GoString
  pub error : GoString
  pub result : GoString

-- `json.Encoder.Encode` of a call, and `json.Decoder.Decode` of a reply.
pub record Codec (P : Type 0) : Type 0 where
  pub encode : RpcCall P → Result GoString
  pub decode_reply : GoString → Result RpcReply

pub record RpcClient : Type 0 where
  pub url : GoString
  pub id_generator : StringIdGenerator

abbrev pub new : GoString → RpcClient
new url = record { url = url; id_generator = record { last_id = 0 } }

module _ {N P : Type 0} (http : HttpClient N) (codec : Codec P) where
  abbrev pub matched : {R : Type 0} → (GoString → Result R) → GoString → Result RpcReply → Result R
  matched decode id (err e) = err (wrap e (codes "Error while decoding reply body"))
  matched decode id panic = panic
  matched decode id (ok reply) =
      if not (reply.id == id)
      then err (message (codes "Reply ID does not match call ID"))
      else if not (reply.error == [])
      then err (message (codes "RPC error: " ++ reply.error))
      else wrap_err (decode reply.result) (codes "Error while decoding reply result")

  abbrev pub replied : {R : Type 0} → (GoString → Result R) → GoString → Result HttpReply → Result R
  replied decode id (err e) = err (wrap e (codes "Error while sending request"))
  replied decode id panic = panic
  replied decode id (ok answer) =
      if not (nat_eq answer.status status_ok)
      then err (message (codes "Invalid HTTP reply status: " ++ format_uint answer.status))
      else matched decode id (codec.decode_reply answer.body)

  abbrev pub sent :
      {R : Type 0}
      → (GoString → Result R)
      → GoString
      → GoString
      → Result GoString
      → N
      → Result R × N
  sent decode url id (err e) n = (err (wrap e (codes "Error while encoding call body")), n)
  sent decode url id panic n = (panic, n)
  sent decode url id (ok body) n =
      let answer = http.post url (codes "application/json") body n in
      (replied decode id answer.0, answer.1)

  unfoldable pub call :
      {R : Type 0} → (GoString → Result R) → GoString → P → RpcClient → N → Result R × RpcClient × N
  call decode method params c n =
      let (id, generator) = next c.id_generator in
      let answer =
        sent decode c.url id (codec.encode (record { id = id; method = method; params = params }))
          n in
      (answer.0, record c { id_generator = generator }, answer.1)
