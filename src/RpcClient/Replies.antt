-- ===== src/RpcClient/Replies.antt =====
-- server/pkg/rpcclient/client.go: which replies a call takes.
use moblog_cloud.Prelude.{
  ℕ, ◌+◌, ◌^◌, ◌<◌, GoString, codes, ◌==◌, eq_iff, eq_refl, nat_eq, [], Result, ok, err, panic,
  wrap_err-eq-ok, ok-ne-err, ok_inj, ◌≡◌, ◌≢◌, ◌↔◌, refl, ap, sym, ◌∙◌, arith, Bool-cases, inl, inr,
}
use moblog_cloud.Http.{HttpReply, HttpClient, status_ok}
use moblog_cloud.IdGenerator.{StringIdGenerator, next}
use moblog_cloud.IdGenerator.Distinct.{after, next-ne-next}
use moblog_cloud.RpcClient.{RpcCall, RpcReply, Codec, RpcClient, matched, replied, sent, call}

module _ {N P R : Type 0} (http : HttpClient N) (codec : Codec P)
    (decode : GoString → Result R) where
  abbrev request : GoString → P → RpcClient → RpcCall P
  request method params c = record {
    id = (next c.id_generator).0;
    method = method;
    params = params;
  }

  -- An answer with the status 200 whose body is a reply of the call's own identifier, without an error,
  -- and with a result that decodes to the value.
  abbrev pub Accepted : GoString → P → RpcClient → N → R → Type 0
  Accepted method params c n r =
      (body : GoString) × (answer : HttpReply) × (reply : RpcReply) × (codec.encode
          (request method params c)
        ≡ ok body)
      × ((http.post c.url (codes "application/json") body n).0 ≡ ok answer)
      × (answer.status ≡ 200)
      × (codec.decode_reply answer.body ≡ ok reply)
      × (reply.id ≡ (next c.id_generator).0)
      × (reply.error ≡ [])
      × (decode reply.result ≡ ok r)

  matched-eq-ok :
      (id : GoString) (decoded : Result RpcReply) (r : R)
      → matched http codec decode id decoded ≡ ok r
      → (reply : RpcReply) × (decoded ≡ ok reply)
        × (reply.id ≡ id)
        × (reply.error ≡ [])
        × (decode reply.result ≡ ok r)
  matched-eq-ok id (err e) r h = cc
  matched-eq-ok id panic r h = cc
  matched-eq-ok id (ok reply) r h = elim (Bool-cases (reply.id == id)) [
    | inr other ↦ absurd (ok-ne-err (sym (rw (other, matched) at h)))
    | inl same ↦ elim (Bool-cases (reply.error == [])) [
      | inr failed ↦ absurd (ok-ne-err (sym (rw (same, failed, matched) at h)))
      | inl is_empty ↦ (
        reply,
        refl,
        (eq_iff reply.id id).0 same,
        (eq_iff reply.error []).0 is_empty,
        wrap_err-eq-ok (decode reply.result) (codes "Error while decoding reply result")
            (rw (same, is_empty, matched) at h),
      )
    ]
  ]

  replied-eq-ok :
      (id : GoString) (answered : Result HttpReply) (r : R)
      → replied http codec decode id answered ≡ ok r
      → (answer : HttpReply) × (answered ≡ ok answer)
        × (answer.status ≡ 200)
        × (matched http codec decode id (codec.decode_reply answer.body) ≡ ok r)
  replied-eq-ok id (err e) r h = cc
  replied-eq-ok id panic r h = cc
  replied-eq-ok id (ok answer) r h = elim (Bool-cases (nat_eq answer.status status_ok)) [
    | inr other ↦ absurd (ok-ne-err (sym (rw (other, replied) at h)))
    | inl is_ok ↦ (answer, refl, ground (arith, is_ok), rw (is_ok, replied) at h)
  ]

  call-eq-ok :
      (method : GoString) (params : P) (c : RpcClient) (n : N) (r : R)
      → (call http codec decode method params c n).0 ≡ ok r
      → Accepted method params c n r
  unfolding call
  call-eq-ok method params c n r h = encoded (codec.encode (request method params c)) refl h
    where
      encoded :
          (e : Result GoString)
          → codec.encode (request method params c) ≡ e
          → (sent http codec decode c.url (next c.id_generator).0 e n).0 ≡ ok r
          → Accepted method params c n r
      encoded (err e) i h = absurd (ok-ne-err (sym h))
      encoded panic i h = cc
      encoded (ok body) i h =
          let (answer, posted, is_ok, rest) = replied-eq-ok (next c.id_generator).0 _ r h in
          let (reply, decoded, same, no_error, result) =
            matched-eq-ok (next c.id_generator).0 _ r rest in
          (body, answer, reply, i, posted, is_ok, decoded, same, no_error, result)

  Accepted-call :
      (method : GoString) (params : P) (c : RpcClient) (n : N) (r : R)
      → Accepted method params c n r
      → (call http codec decode method params c n).0 ≡ ok r
  unfolding call ◌==◌
  Accepted-call method params c n r
        (body, answer, reply, encoded, posted, is_ok, decoded, same, no_error, result) =
      ap (λ e. (sent http codec decode c.url id e n).0) encoded
      ∙ ap (replied http codec decode id) posted
      ∙ rw (is_ok, replied, decoded, same, no_error, eq_refl id, matched, result) refl
    where
      id : GoString
      id = (next c.id_generator).0

  -- A call returns a value exactly when the server answers its request with the status 200 and with a
  -- reply that carries the identifier of the call and no error, and whose result decodes to the value.
  pub call-Accepted :
      (method : GoString) (params : P) (c : RpcClient) (n : N) (r : R)
      → ((call http codec decode method params c n).0 ≡ ok r) ↔ Accepted method params c n r
  call-Accepted method params c n r =
      (call-eq-ok method params c n r, Accepted-call method params c n r)

  -- A reply to an earlier call of the client, however many calls ago, is not taken, as long as the
  -- counter has not wrapped around: where the server answers with one, the call returns no value.
  pub call-ne-earlier :
      (method : GoString) (params : P) (c : RpcClient) (n : N) (r : R) (k : ℕ)
      (g : StringIdGenerator) (answer : HttpReply) (reply : RpcReply)
      → g.last_id + k + 2 < 2 ^ 64
      → c.id_generator ≡ after k (next g).1
      → ((body : GoString) → (http.post c.url (codes "application/json") body n).0 ≡ ok answer)
      → codec.decode_reply answer.body ≡ ok reply
      → reply.id ≡ (next g).0
      → (call http codec decode method params c n).0 ≢ ok r
  call-ne-earlier method params c n r k g answer reply bound later posted decoded old h =
      let (body, answer', reply', _, posted', _, decoded', same, _, _) =
        call-eq-ok method params c n r h in
      let one_answer : answer ≡ answer' = ok_inj (sym (posted body) ∙ posted') in
      let one_reply : reply ≡ reply' =
        ok_inj
          (sym decoded ∙ ap (λ (a : HttpReply). codec.decode_reply a.body) one_answer ∙ decoded') in
      next-ne-next k g bound
        (sym old ∙ ap (λ (x : RpcReply). x.id) one_reply ∙ same ∙ ap (λ x. (next x).0) later)
