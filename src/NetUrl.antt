-- ===== src/NetUrl.antt =====
-- What the program uses of net/url: the parts of a parsed URL, and the functions on it that the
-- backends call, which are parameters.
use mirrortools.Prelude.{Option, Text}

-- `user` is what stands before the host's @, if anything does.
pub record Url : Type 0 where
  pub scheme : Text
  pub user : Option Text
  pub host : Text
  pub path : Text
  pub raw_path : Text
  pub raw_query : Text
  pub fragment : Text
  pub raw_fragment : Text

-- url.Parse, URL.Parse of a reference against a base, URL.String, Hostname and Port.
pub record NetUrl : Type 0 where
  pub parse : Text → Option Url
  pub refer : Url → Text → Option Url
  pub show : Url → Text
  pub hostname : Url → Text
  pub port : Url → Text
