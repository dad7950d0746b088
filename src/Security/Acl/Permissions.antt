-- ===== src/Security/Acl/Permissions.antt =====
-- Which commands a user may run, from its rules (src/astra/security/acl_manager.hpp).
use astra_db.Prelude.{
  ℕ, ◌≡◌, refl, ◌∙◌, Bool, true, false, ◌&&◌, ◌||◌, List, [], ◌∷◌, ◌++◌, nat_eqb, Bytes, bytes,
  bytes_eq, ◌==◌, if◌then◌else◌, arith,
}
use astra_db.Security.Acl.{contains, may_run}
use astra_db.Security.Users.{AclUser}

-- The commands that are granted: none after `-@all`, all after `+@all`, or a list of them.
pub data Grants : Type 0 where
  nothing : Grants
  everything : Grants
  only : List Bytes → Grants

pub record Standing : Type 0 where
  pub active : Bool
  pub grants : Grants

unfoldable pub start : Standing
start = record { active = false; grants = only [] }

-- `+name` adds to a list of commands, and to no other grant.
abbrev pub grant : Bytes → Grants → Grants
grant name (only names) = only (name ∷ names)
grant name nothing = nothing
grant name everything = everything

unfoldable pub heed : Bytes → Standing → Standing
heed rule s =
    if rule == bytes "on"
    then record s { active = true }
    else if rule == bytes "off"
    then record s { active = false }
    else if rule == bytes "reset"
    then record { active = false; grants = only [] }
    else if rule == bytes "allcommands" || rule == bytes "+@all"
    then record s { grants = everything }
    else if rule == bytes "nocommands" || rule == bytes "-@all"
    then record s { grants = nothing }
    else elim rule [
      | c ∷ d ∷ name ↦ if nat_eqb c b'+' then record s { grants = grant (d ∷ name) s.grants } else s
      | _ ↦ s
    ]

unfoldable pub heed_all : List Bytes → Standing → Standing
unfolding heed
heed_all [] s = s
heed_all (rule ∷ rules) s = heed_all rules (heed rule s)

unfoldable pub decision : Bytes → Standing → Bool
unfolding contains
decision command s =
    s.active
    && elim s.grants [ nothing ↦ false | everything ↦ true | only names ↦ contains command names ]

or_comm : (a b : Bool) → (a || b) ≡ (b || a)
or_comm a b = ground arith

or_false : (a : Bool) → (a || false) ≡ a
or_false a = ground arith

pub contains-append :
    (t x : Bytes) (xs : List Bytes) → contains t (xs ++ x ∷ []) ≡ (contains t xs || (x == t))
unfolding contains
contains-append t x [] = ground arith
contains-append t x (y ∷ ys) = ground (arith, contains-append t x ys)

-- What the lists of a user say of the grants.
abbrev pub Agrees : List Bytes → List Bytes → Grants → Type 0
Agrees commands categories nothing = contains (bytes "-@all") commands ≡ true
Agrees commands categories everything =
    (contains (bytes "-@all") commands ≡ false) × (contains (bytes "+@all") commands ≡ true)
Agrees commands categories (only names) =
    (contains (bytes "-@all") commands ≡ false)
    × (contains (bytes "+@all") commands ≡ false)
    × (contains (bytes "allcommands") commands ≡ false)
    × (contains (bytes "+@all") categories ≡ false)
    × (contains (bytes "allcommands") categories ≡ false)
    × ((c : Bytes) → contains (b'+' ∷ c) commands ≡ contains c names)

pub record Stands (u : AclUser) (s : Standing) : Type 0 where
  pub active : u.enabled ≡ s.active
  pub grants : Agrees u.commands u.categories s.grants

pub decide :
    (u : AclUser) (g : Grants) (command : Bytes)
    → Agrees u.commands u.categories g
    → may_run u command ≡ decision command (record { active = u.enabled; grants = g })
unfolding may_run decision
decide u nothing command h = ground (arith, h)
decide u everything command (h, k) = ground (arith, h, k)
decide u (only names) command (h, k, l, m, n, o) = ground (arith, h, k, l, m, n, o command)

-- The categories after a rule that begins with '+' or '-'.
abbrev pub filed : List Bytes → ℕ → Bytes → List Bytes
filed categories d rule = if nat_eqb d b'@' then categories ++ rule ∷ [] else categories

contains-filed :
    (t : Bytes) (categories : List Bytes) (d : ℕ) (rule : Bytes)
    → (rule == t) ≡ false
    → contains t (filed categories d rule) ≡ contains t categories
contains-filed t categories d rule other = ground (arith, contains-append t rule categories, other)

pub Agrees-plus :
    (commands categories : List Bytes) (d : ℕ) (name : Bytes) (g : Grants)
    → ((b'+' ∷ d ∷ name) == bytes "+@all") ≡ false
    → Agrees commands categories g
    → Agrees
        (commands ++ (b'+' ∷ d ∷ name) ∷ [])
        (filed categories d (b'+' ∷ d ∷ name))
        (grant (d ∷ name) g)
unfolding contains
Agrees-plus commands categories d name nothing other h =
    contains-append (bytes "-@all") (b'+' ∷ d ∷ name) commands ∙ rw h refl
Agrees-plus commands categories d name everything other (h, k) =
    let rule = b'+' ∷ d ∷ name in
    (
      contains-append (bytes "-@all") rule commands ∙ rw h refl,
      contains-append (bytes "+@all") rule commands ∙ rw k refl,
    )
Agrees-plus commands categories d name (only names) other (h, k, l, m, n, o) =
    let rule = b'+' ∷ d ∷ name in
    (
      contains-append (bytes "-@all") rule commands ∙ rw h refl,
      contains-append (bytes "+@all") rule commands ∙ rw k other,
      contains-append (bytes "allcommands") rule commands ∙ rw l refl,
      contains-filed (bytes "+@all") categories d rule other ∙ m,
      contains-filed (bytes "allcommands") categories d rule refl ∙ n,
      λ c.
          contains-append (b'+' ∷ c) rule commands
          ∙ rw (o c) (or_comm (contains c names) ((d ∷ name) == c)),
    )

pub Agrees-minus :
    (commands categories : List Bytes) (d : ℕ) (name : Bytes) (g : Grants)
    → ((b'-' ∷ d ∷ name) == bytes "-@all") ≡ false
    → Agrees commands categories g
    → Agrees (commands ++ (b'-' ∷ d ∷ name) ∷ []) (filed categories d (b'-' ∷ d ∷ name)) g
unfolding contains
Agrees-minus commands categories d name nothing other h =
    contains-append (bytes "-@all") (b'-' ∷ d ∷ name) commands ∙ rw h refl
Agrees-minus commands categories d name everything other (h, k) =
    let rule = b'-' ∷ d ∷ name in
    (
      contains-append (bytes "-@all") rule commands ∙ rw h other,
      contains-append (bytes "+@all") rule commands ∙ rw k refl,
    )
Agrees-minus commands categories d name (only names) other (h, k, l, m, n, o) =
    let rule = b'-' ∷ d ∷ name in
    (
      contains-append (bytes "-@all") rule commands ∙ rw h other,
      contains-append (bytes "+@all") rule commands ∙ rw k refl,
      contains-append (bytes "allcommands") rule commands ∙ rw l refl,
      contains-filed (bytes "+@all") categories d rule refl ∙ m,
      contains-filed (bytes "allcommands") categories d rule refl ∙ n,
      λ c. contains-append (b'+' ∷ c) rule commands ∙ rw (o c) (or_false (contains c names)),
    )
