-- ===== src/Security/Acl.antt =====
-- src/astra/security/acl_manager.hpp: the users under their names and their permissions. The
-- mutex makes each method one step; `initialized_` is never read.
pub mod Rules
pub mod Permissions
pub mod Patterns
pub mod Passwords
use astra_db.Prelude.{
  ℕ, ◌+◌, ◌-◌, ◌≤◌, Bool, true, false, not, ◌&&◌, ◌||◌, Option, none, some, List, [], ◌∷◌, ◌++◌,
  map, is_nil, length, ltb, leb, nat_eqb, Bytes, bytes, bytes_eq, ◌==◌, if◌then◌else◌, take, drop,
}
use astra_db.Security.Users.{AclUser, new_user, to_acl_list_string, apply_rules}
use astra_db.Abseil.{FlatHashMap}

unfoldable pub contains : Bytes → List Bytes → Bool
contains t [] = false
contains t (x ∷ xs) = x == t || contains t xs

-- The rest of `CheckCommandPermission`, for a user that is there.
unfoldable pub may_run : AclUser → Bytes → Bool
unfolding contains
may_run u command =
    if not u.enabled
    then false
    else if contains (bytes "-@all") u.commands
    then false
    else if contains (bytes "+@all") u.commands || contains (bytes "allcommands") u.commands
    then true
    else if contains (b'+' ∷ command) u.commands
    then true
    else contains (bytes "+@all") u.categories || contains (bytes "allcommands") u.categories

-- `pattern_str.find('*')`: what stands before the first '*', and what behind it.
unfoldable pub split_star : Bytes → Option (Bytes × Bytes)
split_star [] = none
split_star (c ∷ cs) =
    let rest : Option (Bytes × Bytes) = elim (split_star cs) [
      | none ↦ none
      | some (prefix, suffix) ↦ some (c ∷ prefix, suffix)
    ] in
    if nat_eqb c b'*' then some ([], cs) else rest

-- The test of a key against one pattern without its '~'.
unfoldable pub matches : Bytes → Bytes → Bool
unfolding split_star
matches pattern_str key = if pattern_str == bytes "*" then true else elim (split_star pattern_str) [
  | some (prefix, suffix) ↦
      leb (length prefix + length suffix) (length key)
      && (take (length prefix) key == prefix)
      && (drop (length key - length suffix) key == suffix)
  | none ↦ key == pattern_str
]

unfoldable pub matches_any : List Bytes → Bytes → Bool
unfolding matches
matches_any [] key = false
matches_any (pattern ∷ patterns) key =
    let one : Bool = elim pattern [
      | c ∷ d ∷ rest ↦ nat_eqb c b'~' && matches (d ∷ rest) key
      | _ ↦ false
    ] in
    one || matches_any patterns key

-- The rest of `CheckKeyPermission`, for a user that is there.
unfoldable pub may_access : AclUser → Bytes → Bool
unfolding matches_any
may_access u key =
    if not u.enabled then false else if u.all_keys then true else matches_any u.key_patterns key

module _ (H : FlatHashMap Bytes AclUser) where
  abbrev pub Users : Type 0
  Users = H.Table

  unfoldable pub init : Users → Users
  init users =
      let default_user : AclUser = record {
        username = bytes "default";
        enabled = true;
        all_keys = true;
        all_channels = true;
        no_password = true;
        passwords = [];
        categories = bytes "+@all" ∷ [];
        commands = bytes "+@all" ∷ [];
        key_patterns = [];
        channel_patterns = [];
      } in
      H.insert_or_assign (bytes "default") default_user users

  unfoldable pub authenticate : Bytes → Bytes → Users → Bool
  unfolding contains
  authenticate username password users = elim (H.find users username) [
    | none ↦ false
    | some u ↦
        if not u.enabled
        then false
        else if u.no_password
        then true
        else contains password u.passwords
  ]

  unfoldable pub set_user : Bytes → List Bytes → Users → Users
  unfolding apply_rules new_user
  set_user username rules users =
      let user : AclUser = elim (H.find users username) [ none ↦ new_user username | some u ↦ u ] in
      H.insert_or_assign username (apply_rules rules user) users

  unfoldable pub create_user : Bytes → Bytes → ℕ → Bool → Users → Users
  unfolding set_user
  create_user username password permissions enabled users =
      set_user username
        ((if enabled then bytes "on" else bytes "off")
          ∷ (if not (is_nil password) then b'>' ∷ password else bytes "nopass")
          ∷ (if not (nat_eqb permissions 0) then bytes "+@all" ∷ [] else []))
        users

  unfoldable pub delete_user : Bytes → Users → Bool × Users
  delete_user username users = elim (H.find users username) [
    | none ↦ (false, users)
    | some _ ↦
        if username == bytes "default" then (false, users) else (true, H.erase username users)
  ]

  unfoldable pub get_user_info : Bytes → Users → Option AclUser
  get_user_info username users = H.find users username

  unfoldable pub set_password : Bytes → Bytes → Users → Users
  unfolding set_user
  set_password username password users =
      set_user username ((if is_nil password then bytes "nopass" else b'>' ∷ password) ∷ []) users

  unfoldable pub get_users : Users → List Bytes
  get_users users = map (λ p. to_acl_list_string p.1) (H.entries users)

  unfoldable pub get_user_names : Users → List Bytes
  get_user_names users = map (λ p. p.0) (H.entries users)

  unfoldable pub check_command_permission : Bytes → Bytes → Users → Bool
  unfolding may_run
  check_command_permission username command users = elim (H.find users username) [
    | none ↦ false
    | some u ↦ may_run u command
  ]

  unfoldable pub check_key_permission : Bytes → Bytes → Users → Bool
  unfolding may_access
  check_key_permission username key users = elim (H.find users username) [
    | none ↦ false
    | some u ↦ may_access u key
  ]
