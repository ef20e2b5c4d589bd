-- ===== src/Store/Keeps.antt =====
-- Invariants of the tables under the store's methods, whatever calls of the driver fail: one rule
-- for each way to build a method.
use mirrortools.Prelude.{Option, none, some, List, [], ◌∷◌, Text}
use mirrortools.Store.Tables.{
  StoreError, Result, ok, err, Tables, Conn, Exec, continue, ◌>>=◌, pure, raise, statement, call,
  commit, finish, begin, transaction,
}

pub record Keeps {A : Type 0} (P : Tables → Type 0) (m : Exec A) : Type 0 where
  pub at : (c : Conn) → P c.tables → P (m c).1.tables

Keeps-finish :
    {A : Type 0} (P : Tables → Type 0) (before : Tables) (r : Result A) (c : Conn)
    → P before
    → P c.tables
    → P (finish before r c).1.tables
unfolding finish
Keeps-finish P before (err e) c h k = h
Keeps-finish P before (ok a) c h k = of_commit c.tables c.faults k
  where
    of_commit : (t : Tables) (fs : List (Option Text)) → P t → P (commit a before t fs).1.tables
    of_commit t [] l = l
    of_commit t (none ∷ fs) l = l
    of_commit t (some e ∷ fs) l = h

module _ {A : Type 0} {P : Tables → Type 0} where
  pub Keeps-pure : (a : A) → Keeps P (pure a)
  Keeps-pure a = record { at = λ c h. h }

  pub Keeps-raise : (e : StoreError) → Keeps P (raise {A = A} e)
  Keeps-raise e = record { at = λ c h. h }

  -- A statement that the driver refuses has changed nothing.
  pub Keeps-statement :
      (q : Tables → Result A × Tables) → ((t : Tables) → P t → P (q t).1) → Keeps P (statement q)
  unfolding statement
  Keeps-statement q k = record { at = λ c h. of_call c.tables c.faults h }
    where
      of_call : (t : Tables) (fs : List (Option Text)) → P t → P (call q t fs).1.tables
      of_call t [] h = k t h
      of_call t (none ∷ fs) h = k t h
      of_call t (some e ∷ fs) h = h

  pub Keeps-transaction : (m : Exec A) → Keeps P m → Keeps P (transaction m)
  unfolding transaction begin
  Keeps-transaction m k = record { at = λ c h. of_begin c.tables c.faults h }
    where
      of_begin : (t : Tables) (fs : List (Option Text)) → P t → P (begin m t fs).1.tables
      of_begin t [] h =
          Keeps-finish P t (m (record { tables = t; faults = [] })).0
            (m (record { tables = t; faults = [] })).1 h
            (k.at (record { tables = t; faults = [] }) h)
      of_begin t (none ∷ fs) h =
          Keeps-finish P t (m (record { tables = t; faults = fs })).0
            (m (record { tables = t; faults = fs })).1 h
            (k.at (record { tables = t; faults = fs }) h)
      of_begin t (some e ∷ fs) h = h

module _ {A B : Type 0} {P : Tables → Type 0} where
  Keeps-continue :
      (r : Result A) (f : A → Exec B) (c : Conn)
      → ((a : A) → Keeps P (f a))
      → P c.tables
      → P (continue r f c).1.tables
  Keeps-continue (ok a) f c k h = (k a).at c h
  Keeps-continue (err e) f c k h = h

  pub Keeps-bind :
      (m : Exec A) (f : A → Exec B) → Keeps P m → ((a : A) → Keeps P (f a)) → Keeps P (m >>= f)
  Keeps-bind m f km kf = record {
    at = λ c h. let (r, c') = m c in Keeps-continue r f c' kf (km.at c h);
  }

pub ruleset keeps_rules = (Keeps-pure, Keeps-raise, Keeps-bind, Keeps-transaction)
