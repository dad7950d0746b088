-- ===== src/Commands/ListCommands/Stores.antt =====
-- The two stores of lists: the database at a time, and plain lists under keys.
use astra_db.Prelude.{ℕ, ◌≡◌, ap, Bool, false, Option, none, List, [], Bytes, bytes_eq}
use astra_db.Prelude.Int.{ℤ}
use astra_db.Commands.Database.{Tables, Database}
use astra_db.Commands.Database.Lists
use astra_db.Commands.Database.Lists.Spec.{Call, Reply, flag, element, count, elements, spec, call}
use astra_db.Commands.Database.Lists.Cells.{Stands}
use astra_db.Commands.Database.Lists.Calls.{call_lem}
use astra_db.Commands.ListCommands.{ListStore}

abbrev pub database_store : Tables Bytes → ℤ → ListStore
database_store T now = record {
  State = Database T;
  l_push = Lists.l_push T;
  r_push = Lists.r_push T;
  l_pop = Lists.l_pop T now;
  r_pop = Lists.r_pop T now;
  l_len = Lists.l_len T now;
  l_index = Lists.l_index T now;
  l_set = Lists.l_set T now;
  l_range = Lists.l_range T now;
  l_trim = Lists.l_trim T now;
  l_rem = Lists.l_rem T now;
  l_insert = Lists.l_insert T now;
  r_pop_l_push = Lists.r_pop_l_push T now;
}

-- What a reply holds.
abbrev pub flag_of : Reply Bytes → Bool
flag_of (flag b) = b
flag_of r = false

abbrev pub element_of : Reply Bytes → Option Bytes
element_of (element o) = o
element_of r = none

abbrev pub count_of : Reply Bytes → ℕ
count_of (count n) = n
count_of r = 0

abbrev pub elements_of : Reply Bytes → List Bytes
elements_of (elements xs) = xs
elements_of r = []

abbrev of_reply :
    {A : Type 0} → (Reply Bytes → A) → Reply Bytes × (Bytes → List Bytes) → A × (Bytes → List Bytes)
of_reply f (r, m) = (f r, m)

abbrev pub plain_store : ListStore
plain_store = record {
  State = Bytes → List Bytes;
  l_push = λ k x m. of_reply flag_of (spec m (Call.l_push k x));
  r_push = λ k x m. of_reply flag_of (spec m (Call.r_push k x));
  l_pop = λ k m. of_reply element_of (spec m (Call.l_pop k));
  r_pop = λ k m. of_reply element_of (spec m (Call.r_pop k));
  l_len = λ k m. of_reply count_of (spec m (Call.l_len k));
  l_index = λ k i m. of_reply element_of (spec m (Call.l_index k i));
  l_set = λ k i x m. of_reply flag_of (spec m (Call.l_set k i x));
  l_range = λ k a b m. of_reply elements_of (spec m (Call.l_range k a b));
  l_trim = λ k a b m. of_reply flag_of (spec m (Call.l_trim k a b));
  l_rem = λ k x c m. of_reply count_of (spec m (Call.l_rem k x c));
  l_insert = λ k i x before m. of_reply flag_of (spec m (Call.l_insert k i x before));
  r_pop_l_push = λ k j m. of_reply element_of (spec m (Call.r_pop_l_push k j));
}

-- One store does what another does, up to a relation of their states.
module _ (E E' : ListStore) (R : E.State → E'.State → Type 0) where
  abbrev pub Same : {A : Type 0} → A × E.State → A × E'.State → Type 0
  Same (a, s) (b, t) = (a ≡ b) × R s t

  pub record Simulates : Type 0 where
    pub l_push_sim :
        (k x : Bytes) (s : E.State) (t : E'.State) → R s t → Same (E.l_push k x s) (E'.l_push k x t)
    pub r_push_sim :
        (k x : Bytes) (s : E.State) (t : E'.State) → R s t → Same (E.r_push k x s) (E'.r_push k x t)
    pub l_pop_sim :
        (k : Bytes) (s : E.State) (t : E'.State) → R s t → Same (E.l_pop k s) (E'.l_pop k t)
    pub r_pop_sim :
        (k : Bytes) (s : E.State) (t : E'.State) → R s t → Same (E.r_pop k s) (E'.r_pop k t)
    pub l_len_sim :
        (k : Bytes) (s : E.State) (t : E'.State) → R s t → Same (E.l_len k s) (E'.l_len k t)
    pub l_index_sim :
        (k : Bytes) (i : ℤ) (s : E.State) (t : E'.State)
        → R s t
        → Same (E.l_index k i s) (E'.l_index k i t)
    pub l_set_sim :
        (k : Bytes) (i : ℤ) (x : Bytes) (s : E.State) (t : E'.State)
        → R s t
        → Same (E.l_set k i x s) (E'.l_set k i x t)
    pub l_range_sim :
        (k : Bytes) (a b : ℤ) (s : E.State) (t : E'.State)
        → R s t
        → Same (E.l_range k a b s) (E'.l_range k a b t)
    pub l_trim_sim :
        (k : Bytes) (a b : ℤ) (s : E.State) (t : E'.State)
        → R s t
        → Same (E.l_trim k a b s) (E'.l_trim k a b t)
    pub l_rem_sim :
        (k x : Bytes) (c : ℤ) (s : E.State) (t : E'.State)
        → R s t
        → Same (E.l_rem k x c s) (E'.l_rem k x c t)
    pub l_insert_sim :
        (k : Bytes) (i : ℤ) (x : Bytes) (before : Bool) (s : E.State) (t : E'.State)
        → R s t
        → Same (E.l_insert k i x before s) (E'.l_insert k i x before t)
    pub r_pop_l_push_sim :
        (k j : Bytes) (s : E.State) (t : E'.State)
        → R s t
        → Same (E.r_pop_l_push k j s) (E'.r_pop_l_push k j t)

module _ (T : Tables Bytes) (now : ℤ) where
  pub database_simulates : Simulates (database_store T now) plain_store (λ db m. Stands T m db)
  unfolding call
  database_simulates = record {
    l_push_sim =
        λ k x db m h. let (r, s) = call_lem T m db now h (Call.l_push k x) in (ap flag_of r, s);
    r_push_sim =
        λ k x db m h. let (r, s) = call_lem T m db now h (Call.r_push k x) in (ap flag_of r, s);
    l_pop_sim =
        λ k db m h. let (r, s) = call_lem T m db now h (Call.l_pop k) in (ap element_of r, s);
    r_pop_sim =
        λ k db m h. let (r, s) = call_lem T m db now h (Call.r_pop k) in (ap element_of r, s);
    l_len_sim = λ k db m h. let (r, s) = call_lem T m db now h (Call.l_len k) in (ap count_of r, s);
    l_index_sim =
        λ k i db m h. let (r, s) = call_lem T m db now h (Call.l_index k i) in (ap element_of r, s);
    l_set_sim =
        λ k i x db m h. let (r, s) = call_lem T m db now h (Call.l_set k i x) in (ap flag_of r, s);
    l_range_sim = λ k a b db m h.
        let (r, s) = call_lem T m db now h (Call.l_range k a b) in (ap elements_of r, s);
    l_trim_sim =
        λ k a b db m h. let (r, s) = call_lem T m db now h (Call.l_trim k a b) in (ap flag_of r, s);
    l_rem_sim =
        λ k x c db m h. let (r, s) = call_lem T m db now h (Call.l_rem k x c) in (ap count_of r, s);
    l_insert_sim = λ k i x before db m h.
        let (r, s) = call_lem T m db now h (Call.l_insert k i x before) in (ap flag_of r, s);
    r_pop_l_push_sim = λ k j db m h.
        let (r, s) = call_lem T m db now h (Call.r_pop_l_push k j) in (ap element_of r, s);
  }
