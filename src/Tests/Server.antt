-- ===== src/Tests/Server.antt =====
-- The theorems on the server's handlers, on a server with two methods and a password.
use mirrortools.Config.{decoded}
use mirrortools.Registry.{accepts}
use mirrortools.Prelude.{
  ◌+◌, ◌≡◌, ◌⊎◌, refl, false, none, some, [], ◌∷◌, Text, codes, pos, ltb, if◌then◌else◌,
}
use mirrortools.Job.{SubmitRequest}
use mirrortools.Queue.{new_queue}
use mirrortools.Auth.{session_duration}
use mirrortools.Auth.Sessions.{with_cookie}
use mirrortools.Server.{Server}
use mirrortools.Server.Submit.{completed_request}
use mirrortools.Server.Filled.{IsSubmitted, completed_request-IsSubmitted}
use mirrortools.Server.Sessions.{
  WebRequest, serve, reply_with, turned_away, is_public, with_auth, handle_login_submit,
  handle_logout, handle_save_config, all_well,
}
use mirrortools.Server.Passages.{
  IsEntitled, with_auth-IsEntitled, with_auth-handle_login_submit, with_auth-handle_logout,
}
use mirrortools.Server.Saved.{IsSaved, handle_save_config-IsSaved}
use mirrortools.Tests.Samples.{four}
use mirrortools.Tests.Registry.{two}
use mirrortools.Tests.Auth.{guarded, by_bearer}
use mirrortools.Tests.Config.{env, loaded, file}

abbrev server : Server
server = record {
  queue = new_queue (record { tables = four; faults = [] }) (pos 2) (pos 3);
  cfg = loaded;
  config_path = codes "/c";
  config_file = none;
  auth = some guarded;
  event_subs = [];
  methods = two;
}

abbrev asked : SubmitRequest
asked = record {
  method = [];
  source = codes "http://a";
  dest_dir = [];
  flags = (codes "depth", codes "1") ∷ [];
  priority = pos 0;
}

abbrev call : WebRequest
call = record {
  path = codes "/api/jobs";
  accept = codes "application/json";
  content_type = [];
  credentials = by_bearer;
}

abbrev by_cookie : Text → WebRequest
by_cookie token = record call { credentials = with_cookie token }

completed_request-IsSubmitted_example :
    IsSubmitted
      (λ s. false)
      server
      asked
      (record asked { method = codes "zip"; dest_dir = codes "/h/m" })
unfolding completed_request accepts
completed_request-IsSubmitted_example =
    completed_request-IsSubmitted (λ s. false) server asked
      (record asked { method = codes "zip"; dest_dir = codes "/h/m" }) refl

with_auth-IsEntitled_example :
    ((with_auth 9 call server).0 ≡ reply_with (turned_away call))
    ⊎ (((with_auth 9 call server).0 ≡ serve) × IsEntitled server 9 call)
unfolding is_public
with_auth-IsEntitled_example = with_auth-IsEntitled server 9 call refl refl

with_auth-handle_login_submit_example :
    ((handle_login_submit 8 call (codes "secret") (codes "t2") server).1 ≡ some (codes "t2"))
    × ((with_auth 9
          (by_cookie (codes "t2"))
          (handle_login_submit 8 call (codes "secret") (codes "t2") server).2).0
        ≡ (if ltb 9 (8 + session_duration)
            then serve
            else reply_with (turned_away (by_cookie (codes "t2")))))
unfolding is_public
with_auth-handle_login_submit_example =
    with_auth-handle_login_submit server guarded 8 9 call (by_cookie (codes "t2")) (codes "t2") refl
      refl (λ e. cc) (λ e. cc) (refl, refl)

with_auth-handle_logout_example :
    (with_auth 9 (by_cookie (codes "t1")) (handle_logout (by_cookie (codes "t1")) server).1).0
    ≡ reply_with (turned_away (by_cookie (codes "t1")))
unfolding is_public
with_auth-handle_logout_example =
    with_auth-handle_logout server guarded 9 (by_cookie (codes "t1")) (by_cookie (codes "t1"))
      (codes "t1") refl refl (λ e. cc) refl (refl, refl)

handle_save_config-IsSaved_example :
    IsSaved env
      (λ raw. decoded file)
      (codes "/t/x")
      (codes "destdir")
      all_well
      server
      (handle_save_config env
        (λ raw. decoded file)
        (codes "/t/x")
        all_well
        (some (codes "destdir"))
        server)
handle_save_config-IsSaved_example =
    handle_save_config-IsSaved env (λ raw. decoded file) (codes "/t/x") (codes "destdir") all_well
      server (λ e. cc)
