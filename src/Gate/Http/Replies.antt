-- ===== src/Gate/Http/Replies.antt =====
-- Which requests are answered, and how.
use quick_chat.Prelude.Assoc.{lookup}
use quick_chat.Prelude.{
  ◌+◌, Bool, true, false, [], ◌∷◌, ◌++◌, none, some, ◌≡◌, ◌≢◌, refl, inl, inr, arith, Bytes,
  bytes_key, codes, Outcome, done, blocked, threw, crashed, Option-cases,
}
use quick_chat.Gate.Query.{parse_target}
use quick_chat.Gate.Logic.{Outside, Context, raw, Tables, handle_get, handle_post}
use quick_chat.Gate.Http.{
  Verb, get_verb, post_verb, other_verb, Request, not_found, HttpConnection, reply, handle_req,
  on_request,
}

module _ (out : Outside) where
  reply-written :
      (message : Bytes) (c : HttpConnection out) (r : Outcome Bool × Context out)
      → (reply out message c r).0 ≡ done tt
      → (reply out message c r).1.written ≡ c.written + 1
  unfolding reply
  reply-written message c (done true, x) h = refl
  reply-written message c (done false, x) h = refl
  reply-written message c (blocked, x) h = cc
  reply-written message c (threw, x) h = cc
  reply-written message c (crashed, x) h = cc

  -- A GET or POST request whose handling returns is answered exactly once.
  pub handle_req_answers :
      (t : Tables out) (r : Request) (c : HttpConnection out)
      → r.method ≢ other_verb
      → (handle_req out t r c).0 ≡ done tt
      → (handle_req out t r c).1.written ≡ c.written + 1
  handle_req_answers t r c known h = by_method r.method refl
    where
      by_method : (v : Verb) → r.method ≡ v → (handle_req out t r c).1.written ≡ c.written + 1
      by_method get_verb e = elim (Option-cases (parse_target r.target c.get_params)) [
        | inl f ↦ absurd (unfold handle_req in ground arith)
        | inr (parsed, f) ↦
            let c' : HttpConnection out = record c {
              get_url = parsed.get_url;
              get_params = parsed.get_params;
            } in
            let answer =
              reply-written (codes "url not found \r\n") c'
                (handle_get out t parsed.get_url parsed.get_params c'.context) in
            unfold handle_req in ground (arith, answer)
      ]
      by_method post_verb e =
          let answer =
            reply-written (codes "url not found\r\n") c
              (handle_post out t r.target r.body c.context) in
          unfold handle_req in ground (arith, answer)
      by_method other_verb e = absurd (known e)

  -- A request with another method is never answered: the handler writes no response, and waits for
  -- the deadline.
  other_method_unanswered :
      (t : Tables out) (r : Request) (c : HttpConnection out)
      → r.method ≡ other_verb
      → on_request out t (some r) c ≡ (done tt, record c { deadline = true })
  unfolding on_request
  other_method_unanswered t r c e = ground arith

  -- A POST to a path that has no handler gets a 404 with its text, and the Redis and MySQL
  -- clients are left alone.
  post_unknown_path :
      (t : Tables out) (r : Request) (c : HttpConnection out)
      → r.method ≡ post_verb
      → lookup r.target t.post_handlers ≡ none
      → (let c' = (handle_req out t r c).1 in
          (c'.status ≡ some not_found)
          × (c'.context.body ≡ c.context.body ++ raw (codes "url not found\r\n") ∷ [])
          × (c'.context.redis ≡ c.context.redis)
          × (c'.context.mysql ≡ c.context.mysql))
  unfolding handle_req handle_post
  post_unknown_path t r c e f = ground arith
