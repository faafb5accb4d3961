-- ===== src/Http/Launch.antt =====
-- `launch` of src/http.cpp: what its future gives.
use curlev.Prelude.{
  sym, subst, ℕ, Bool, true, false, Option, none, some, ◌≡◌, refl, arith, and_then, ap, ◌∙◌, Bytes,
  Bool-cases, inl, inr,
}
use curlev.Prelude.Int.{ℤ}
use curlev.Libcurl.{Libcurl}
use curlev.Transfer.{Base}
use curlev.Wrapper.{
  Wrapper, State, prepare_local, submit, begin_transfer, is_success, do_if_idle, if_success,
}
use curlev.Wrapper.Configure.{threaded_callback}
use curlev.Wrapper.Promise.{Launched, pending, fulfilled, launch, completed}
use curlev.Wrapper.Promise.Kept.{Settled, ran, failed, kept_of, launched-Settled}
use curlev.Http.Laws.{http-ProtocolLaws, response_of, take_response-TakeLaws}
use curlev.Http.{
  Http, Info, Response, http, prepare_protocol, finalize_protocol, release_curl_extras,
  take_response, or_else,
}

-- What libcurl told of the response, or what the object had.
abbrev pub newer : Option Bytes → Bytes → Bytes
newer none old = old
newer (some new) old = new

or_else-newer : (o : Option Bytes) (old : Bytes) → or_else o old ≡ newer o old
or_else-newer none old = refl
or_else-newer (some new) old = refl

-- The members that the response is made of are as they were.
record Unread (w w' : Wrapper Http) : Type 0 where
  base : w'.base ≡ w.base
  content_type : w'.protocol.response_content_type ≡ w.protocol.response_content_type
  redirect_url : w'.protocol.response_redirect_url ≡ w.protocol.response_redirect_url

module _ (lib : Libcurl) (info : Info) where
  prepared-Unread :
      (w : Wrapper Http) → Unread w (and_then (prepare_protocol lib w) (prepare_local lib)).0
  unfolding prepare_protocol prepare_local
  prepared-Unread w = record {
    base = ground arith;
    content_type = ground arith;
    redirect_url = ground arith;
  }

  submitted-Unread :
      (accepted : Bool) (w : Wrapper Http) (r : Wrapper Http × Bool)
      → Unread w r.0
      → Unread w (submit r accepted).0
  unfolding submit
  submitted-Unread true w (u, true) a = record {
    base = a.base;
    content_type = a.content_type;
    redirect_url = a.redirect_url;
  }
  submitted-Unread false w (u, true) a = record {
    base = a.base;
    content_type = a.content_type;
    redirect_url = a.redirect_url;
  }
  submitted-Unread true w (u, false) a = a
  submitted-Unread false w (u, false) a = a

  begun-Unread :
      (cb : Option ℕ) (accepted : Bool) (w : Wrapper Http)
      → Unread w (begin_transfer (http lib info) lib cb accepted w).0
  unfolding begin_transfer http
  begun-Unread cb accepted w =
      let w1 : Wrapper Http = record w { user_cb = cb } in
      elim (Bool-cases (is_success w.response_code)) [
        | inl e ↦
            rw (e, begin_transfer)
              (let a =
                  submitted-Unread accepted w1
                    (and_then (prepare_protocol lib w1) (prepare_local lib)) (prepared-Unread w1) in
                record {
                  base = a.base;
                  content_type = a.content_type;
                  redirect_url = a.redirect_url;
                })
        | inr e ↦
            rw (e, begin_transfer)
              (record { base = refl; content_type = refl; redirect_url = refl })
      ]

  threaded-Unread : (w : Wrapper Http) → Unread w (threaded_callback false w)
  unfolding threaded_callback do_if_idle if_success
  threaded-Unread w = record {
    base = ground arith;
    content_type = ground arith;
    redirect_url = ground arith;
  }

  -- `w` after the lock of `start` in `launch`, and whether a transfer runs now.
  abbrev pub begun : ℕ → Bool → Wrapper Http → Wrapper Http × Bool
  begun cb accepted w =
      begin_transfer (http lib info) lib (some cb) accepted (threaded_callback false w)

  launched-Unread : (cb : ℕ) (accepted : Bool) (w : Wrapper Http) → Unread w (begun cb accepted w).0
  launched-Unread cb accepted w =
      let a = threaded-Unread w in
      let b = begun-Unread (some cb) accepted (threaded_callback false w) in
      record {
        base = b.base ∙ a.base;
        content_type = b.content_type ∙ a.content_type;
        redirect_url = b.redirect_url ∙ a.redirect_url;
      }

  -- What the future gives, for an object `w`. `b` is whether a transfer was begun.
  pub data Answered (stored : Base → Base) (result : ℤ) (w : Wrapper Http)
      : Bool → Launched Http Response → Type 0 where
    in_time :
        (l : Launched Http Response)
        → l.wrapper.exec_state ≡ State.running
        → l.promise ≡ pending
        → (completed (http lib info) lib take_response stored result l).promise
          ≡ fulfilled (record {
            code = result;
            headers = (stored w.base).response_headers;
            redirect_url = newer info.redirect_url w.protocol.response_redirect_url;
            content_type = newer info.content_type w.protocol.response_content_type;
            body = (stored w.base).response_body;
          })
        → (completed (http lib info) lib take_response stored result l).wrapper.exec_state
          ≡ State.idle
        → Answered stored result w true l
    at_once :
        (l : Launched Http Response)
        → l.wrapper.exec_state ≡ State.idle
        → l.promise
          ≡ fulfilled (record {
            code = l.wrapper.response_code;
            headers = w.base.response_headers;
            redirect_url = w.protocol.response_redirect_url;
            content_type = w.protocol.response_content_type;
            body = w.base.response_body;
          })
        → Answered stored result w false l

  ran_response :
      (stored : Base → Base) (result : ℤ) (w v : Wrapper Http)
      → Unread w v
      → response_of result (stored v.base) (
          kept_of
            (http lib info)
            (http-ProtocolLaws lib info)
            lib
            take_response
            response_of
            take_response-TakeLaws
            result
            (stored v.base)
            v)
        ≡ record {
          code = result;
          headers = (stored w.base).response_headers;
          redirect_url = newer info.redirect_url w.protocol.response_redirect_url;
          content_type = newer info.content_type w.protocol.response_content_type;
          body = (stored w.base).response_body;
        }
  unfolding http finalize_protocol release_curl_extras
  ran_response stored result w v a = λ j. record {
    code = result;
    headers = (stored (a.base j)).response_headers;
    redirect_url =
        (or_else-newer info.redirect_url v.protocol.response_redirect_url
            ∙ ap (newer info.redirect_url) a.redirect_url)
          j;
    content_type =
        (or_else-newer info.content_type v.protocol.response_content_type
            ∙ ap (newer info.content_type) a.content_type)
          j;
    body = (stored (a.base j)).response_body;
  }

  answered :
      (stored : Base → Base) (result : ℤ) (w : Wrapper Http) (r : Wrapper Http × Bool)
      (l : Launched Http Response)
      → Unread w r.0
      → Settled
          (http lib info)
          (http-ProtocolLaws lib info)
          lib
          take_response
          response_of
          take_response-TakeLaws
          stored
          result
          r
          l
      → Answered stored result w r.1 l
  answered stored result w (v, b) l a (ran e same running waits gives idle) =
      subst (λ b. Answered stored result w b l) (sym e)
        (in_time l running waits (gives ∙ ap fulfilled (ran_response stored result w v a)) idle)
  answered stored result w (v, b) l a (failed e idle gives) =
      subst (λ b. Answered stored result w b l) (sym e)
        (at_once l idle (
          gives ∙ λ j. fulfilled (record {
            code = l.wrapper.response_code;
            headers = (a.base j).response_headers;
            redirect_url = a.redirect_url j;
            content_type = a.content_type j;
            body = (a.base j).response_body;
          })))

  -- `launch` of an idle HTTP object. If `start` begins a transfer, the promise is pending while it
  -- runs; once it ends, the future gives its result with the headers and the body that were stored
  -- and the type and the address that libcurl told, or else those that the object had, and the
  -- object is idle. If it begins none, the object is idle and the future gives at once the code that
  -- the object then has, with the response that it had before. That code may be success, 0.
  pub launch-Answered :
      (cb : ℕ) (stored : Base → Base) (accepted : Bool) (result : ℤ) (w : Wrapper Http)
      → w.exec_state ≡ State.idle
      → Answered stored result w
          (begun cb accepted w).1
          (launch (http lib info) lib take_response cb accepted w)
  launch-Answered cb stored accepted result w e =
      answered stored result w (begun cb accepted w)
        (launch (http lib info) lib take_response cb accepted w) (launched-Unread cb accepted w)
        (launched-Settled (http lib info) (http-ProtocolLaws lib info) lib take_response response_of
          take_response-TakeLaws cb stored accepted result w e)
