-- ===== src/Gate/Http/Routes.antt =====
-- Requests to the registered paths, from the target of the request to the response.
use quick_chat.Prelude.Assoc.{lookup, insert_new}
use quick_chat.Prelude.{
  ◌+◌, true, [], ◌∷◌, ◌++◌, none, some, ◌≡◌, ◌⊎◌, inl, inr, refl, arith, Bytes, bytes_eq, codes,
  done,
}
use quick_chat.Common.ErrorCodes.{error_json}
use quick_chat.Common.Mysql.Dao.{UserInfo}
use quick_chat.Gate.Logic.{
  Outside, Context, document, error_doc, make_tables, handle_post, with_json,
}
use quick_chat.Gate.Http.{Request, post_verb, ok_status, HttpConnection, handle_req}

module _ (out : Outside) (prefix : Bytes) (blank : UserInfo) where
  -- The paths that the constructor of the logic system registers for POST.
  abbrev pub IsPostPath : Bytes → Type 0
  IsPostPath path =
      (path ≡ codes "/get_verifycode")
      ⊎ (path ≡ codes "/user_register")
      ⊎ (path ≡ codes "/reset_pwd")
      ⊎ (path ≡ codes "/user_login")

  post_handled :
      (path body : Bytes) (s : Context out)
      → IsPostPath path
      → out.json.parse body ≡ none
      → handle_post out (make_tables out prefix blank) path body s ≡ (
        done true,
        record s { json_type = true; body = s.body ++ document (error_doc out error_json) ∷ [] },
      )
  unfolding handle_post make_tables lookup insert_new bytes_eq with_json
  post_handled path body s (inl e) h = rw e (rw h refl)
  post_handled path body s (inr (inl e)) h = rw e (rw h refl)
  post_handled path body s (inr (inr (inl e))) h = rw e (rw h refl)
  post_handled path body s (inr (inr (inr e))) h = rw e (rw h refl)

  -- A POST to a registered path with a body that is no JSON is answered, once and with status 200,
  -- with the error for it alone; and nothing behind the server is touched.
  bad_json_answers :
      (r : Request) (c : HttpConnection out)
      → r.method ≡ post_verb
      → IsPostPath r.target
      → out.json.parse r.body ≡ none
      → handle_req out (make_tables out prefix blank) r c ≡ (
        done tt,
        record c {
          context = record c.context {
            json_type = true;
            body = c.context.body ++ document (error_doc out error_json) ∷ [];
          };
          status = some ok_status;
          server_field = true;
          written = c.written + 1;
        },
      )
  unfolding handle_req
  bad_json_answers r c post path bad =
      ground (arith, post_handled r.target r.body c.context path bad)
