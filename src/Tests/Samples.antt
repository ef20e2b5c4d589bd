-- ===== src/Tests/Samples.antt =====
-- A small database and a platform to run the model on.
use mirrortools.Prelude.{
  ℕ, nat_has_eq, text_has_eq, none, [], ◌∷◌, codes, refl, ℤ, pos, arith, contains,
}
use mirrortools.Job.{
  State, queued, running, quarantined, Platform, JobLog, BatchRequest, batch_cancel, valid,
}
use mirrortools.Store.Tables.{Row, Tables}
use mirrortools.Store.Sql.{Ascends}
use mirrortools.Store.Invariant.{IsValid}

-- A platform with no URLs, and with flags that are stored as no flags.
abbrev pub plain : Platform
plain = record { parse_url = λ s. none; marshal = λ f. none; unmarshal = λ t. [] }

abbrev pub row_of : ℕ → State → ℤ → Row
row_of i s p = record {
  id = i;
  method = codes "http";
  source = codes "a/b";
  dest_dir = [];
  flags_json = codes "{}";
  state = s;
  priority = p;
  created_at = i;
  started_at = none;
  finished_at = none;
  retry_count = 0;
  max_retries = 2;
  last_error = none;
  quarantine_reason = none;
  site = codes "a";
  path = codes "b";
}

abbrev pub line_of : ℕ → ℕ → JobLog
line_of i job = record {
  id = i;
  job_id = job;
  timestamp = 9;
  stream = codes "stdout";
  message = codes "m";
}

-- Four jobs: two wait, one runs and one is set aside.
abbrev pub four : Tables
four = record {
  jobs =
      row_of 1 queued (pos 0)
      ∷ row_of 2 running (pos 0)
      ∷ row_of 3 queued (pos 5)
      ∷ row_of 4 quarantined (pos 0)
      ∷ [];
  logs = line_of 1 2 ∷ line_of 2 4 ∷ line_of 3 2 ∷ [];
  settings = [];
  next_job = 5;
  next_log = 4;
}

pub four-Ascends : Ascends 1 four.jobs
four-Ascends = ground arith

pub four-IsValid : IsValid four
unfolding valid contains
four-IsValid = record {
  ascends = four-Ascends;
  fresh = ground arith;
  counted = ground arith;
  sound = (
    record { known = refl; tries = ground arith },
    (
      record { known = refl; tries = ground arith },
      (
        record { known = refl; tries = ground arith },
        (record { known = refl; tries = ground arith }, tt),
      ),
    ),
  );
  parents = (refl, (refl, (refl, tt)));
  log_order = ground arith;
  log_fresh = ground arith;
  log_counted = ground arith;
  keys = ground arith;
}

-- Cancel what is under the site a.
abbrev pub under_a : BatchRequest
under_a = record { action = batch_cancel; prefix = codes "a"; ids = []; reason = [] }
