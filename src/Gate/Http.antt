-- ===== src/Gate/Http.antt =====
-- servers/GateServer/src/HttpConnection.cpp: `Start`, `HandleReq`, `WriteResponse` and
-- `CheckDeadline`.
pub mod Replies
pub mod Routes
pub mod Deadline
use quick_chat.Prelude.{
  ℕ, suc, ◌+◌, Bool, true, false, List, [], ◌∷◌, ◌++◌, Option, none, some, ◌≡◌, Bytes, codes,
  if◌then◌else◌, Outcome, done, blocked, threw, crashed,
}
use quick_chat.Gate.Query.{Params, Target, parse_target}
use quick_chat.Gate.Logic.{Outside, Context, Chunk, raw, Tables, handle_get, handle_post}

pub data Verb : Type 0 where
  get_verb post_verb other_verb : Verb

pub record Request : Type 0 where
  pub method : Verb
  pub target : Bytes
  pub body : Bytes

pub data Status : Type 0 where
  ok_status not_found : Status

module _ (out : Outside) where
  -- The connection, with the body of the response and all that a handler can reach in `context`.
  -- `written`: the calls of `WriteResponse`. `deadline`: `CheckDeadline` has been called.
  pub record HttpConnection : Type 0 where
    pub context : Context out
    pub get_url : Bytes
    pub get_params : Params
    pub status : Option Status
    pub server_field : Bool
    pub written : ℕ
    pub deadline : Bool

  write_response : HttpConnection → HttpConnection
  write_response c = record c { written = c.written + 1 }

  check_deadline : HttpConnection → HttpConnection
  check_deadline c = record c { deadline = true }

  -- The answer to a target that no table has. The content type is text/plain.
  reply_not_found : Bytes → HttpConnection → HttpConnection
  unfolding write_response
  reply_not_found message c =
      let body = c.context.body ++ raw message ∷ [] in
      write_response (record c {
        context = record (c.context) { json_type = false; body = body };
        status = some not_found;
      })

  reply_ok : HttpConnection → HttpConnection
  unfolding write_response
  reply_ok c = write_response (record c { status = some ok_status; server_field = true })

  -- What follows the call of the logic system.
  pub reply :
      Bytes → HttpConnection → Outcome Bool × Context out → Outcome (Unit {0}) × HttpConnection
  unfolding reply_not_found reply_ok
  reply message c (done true, x) = (done tt, reply_ok (record c { context = x }))
  reply message c (done false, x) = (done tt, reply_not_found message (record c { context = x }))
  reply message c (blocked, x) = (blocked, record c { context = x })
  reply message c (threw, x) = (threw, record c { context = x })
  reply message c (crashed, x) = (crashed, record c { context = x })

  -- `HandleReq`. A method that is neither GET nor POST is not answered.
  unfoldable pub handle_req :
      Tables out → Request → HttpConnection → Outcome (Unit {0}) × HttpConnection
  unfolding reply
  handle_req t r c = elim r.method [
    | get_verb ↦ elim (parse_target r.target c.get_params) [
      | none ↦ (crashed, c)
      | some parsed ↦
          let c' : HttpConnection = record c {
            get_url = parsed.get_url;
            get_params = parsed.get_params;
          } in
          reply (codes "url not found \r\n") c'
            (handle_get out t parsed.get_url parsed.get_params c'.context)
    ]
    | post_verb ↦ reply (codes "url not found\r\n") c (handle_post out t r.target r.body c.context)
    | other_verb ↦ (done tt, c)
  ]

  -- The rest of the handler of `Start`: an exception is caught and printed.
  after_request : Outcome (Unit {0}) × HttpConnection → Outcome (Unit {0}) × HttpConnection
  unfolding check_deadline
  after_request (done u, c) = (done tt, check_deadline c)
  after_request (threw, c) = (done tt, c)
  after_request (blocked, c) = (blocked, c)
  after_request (crashed, c) = (crashed, c)

  -- The handler of `Start`; none is a failed read.
  pub on_request :
      Tables out → Option Request → HttpConnection → Outcome (Unit {0}) × HttpConnection
  unfolding handle_req after_request
  on_request t none c = (done tt, c)
  on_request t (some r) c = after_request (handle_req t r c)
