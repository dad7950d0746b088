-- ===== src/Security/Users.antt =====
-- src/astra/security/acl_manager.hpp: a user, and what each rule of `SetUser` does to it.
use astra_db.Prelude.{
  ℕ, Bool, true, false, not, ◌||◌, List, [], ◌∷◌, ◌++◌, nat_eqb, Bytes, bytes, bytes_eq, ◌==◌,
  if◌then◌else◌,
}

pub record AclUser : Type 0 where
  pub username : Bytes
  pub enabled : Bool
  pub all_keys : Bool
  pub all_channels : Bool
  pub no_password : Bool
  pub passwords : List Bytes
  pub categories : List Bytes
  pub commands : List Bytes
  pub key_patterns : List Bytes
  pub channel_patterns : List Bytes

-- A new user of `SetUser`.
unfoldable pub new_user : Bytes → AclUser
new_user username = record {
  username = username;
  enabled = false;
  all_keys = false;
  all_channels = false;
  no_password = false;
  passwords = [];
  categories = [];
  commands = [];
  key_patterns = [];
  channel_patterns = [];
}

-- What each text of a list is followed by a space.
unfoldable pub spaced : List Bytes → Bytes
spaced [] = []
spaced (t ∷ ts) = t ++ bytes " " ++ spaced ts

unfoldable pub to_acl_list_string : AclUser → Bytes
unfolding spaced
to_acl_list_string u =
    bytes "user "
    ++ u.username
    ++ bytes " "
    ++ (if not u.enabled then bytes "off " else bytes "on ")
    ++ (if u.no_password then bytes "nopass " else [])
    ++ (if u.all_keys then bytes "~* " else spaced u.key_patterns)
    ++ (if u.all_channels then bytes "&* " else spaced u.channel_patterns)
    ++ spaced u.categories
    ++ spaced u.commands

-- `std::find` and `erase` of a password.
unfoldable pub erase_first : Bytes → List Bytes → List Bytes
erase_first password [] = []
erase_first password (p ∷ ps) =
    let rest = erase_first password ps in if p == password then ps else p ∷ rest

-- The rules that are a character and a text.
unfoldable pub apply_prefixed : ℕ → Bytes → AclUser → AclUser
unfolding erase_first
apply_prefixed prefix suffix u =
    let rule = prefix ∷ suffix in
    if nat_eqb prefix b'+' || nat_eqb prefix b'-'
    then record u {
      commands = u.commands ++ rule ∷ [];
      categories = elim suffix [
        | [] ↦ u.categories
        | c ∷ _ ↦ if nat_eqb c b'@' then u.categories ++ rule ∷ [] else u.categories
      ];
    }
    else if nat_eqb prefix b'>' || nat_eqb prefix b'#'
    then record u { no_password = false; passwords = u.passwords ++ suffix ∷ [] }
    else if nat_eqb prefix b'<'
    then record u { passwords = erase_first suffix u.passwords }
    else if nat_eqb prefix b'~'
    then (if suffix == bytes "*"
        then record u { all_keys = true; key_patterns = [] }
        else record u { key_patterns = u.key_patterns ++ rule ∷ [] })
    else if nat_eqb prefix b'&'
    then (if suffix == bytes "*"
        then record u { all_channels = true; channel_patterns = [] }
        else record u { channel_patterns = u.channel_patterns ++ rule ∷ [] })
    else u

-- One round of the loop of `SetUser`.
unfoldable pub apply_rule : Bytes → AclUser → AclUser
unfolding apply_prefixed new_user
apply_rule rule u =
    if rule == bytes "on"
    then record u { enabled = true }
    else if rule == bytes "off"
    then record u { enabled = false }
    else if rule == bytes "nopass"
    then record u { no_password = true; passwords = [] }
    else if rule == bytes "allkeys"
    then record u { all_keys = true; key_patterns = [] }
    else if rule == bytes "allchannels"
    then record u { all_channels = true; channel_patterns = [] }
    else if rule == bytes "reset"
    then new_user u.username
    else if rule == bytes "resetkeys"
    then record u { all_keys = false; key_patterns = [] }
    else if rule == bytes "resetchannels"
    then record u { all_channels = false; channel_patterns = [] }
    else if rule == bytes "resetpass"
    then record u { no_password = false; passwords = [] }
    else if rule == bytes "allcommands" || rule == bytes "+@all"
    then record u { commands = bytes "+@all" ∷ []; categories = u.categories ++ bytes "+@all" ∷ [] }
    else if rule == bytes "nocommands" || rule == bytes "-@all"
    then record u { categories = []; commands = bytes "-@all" ∷ [] }
    else elim rule [ prefix ∷ c ∷ suffix ↦ apply_prefixed prefix (c ∷ suffix) u | _ ↦ u ]

unfoldable pub apply_rules : List Bytes → AclUser → AclUser
unfolding apply_rule
apply_rules [] u = u
apply_rules (rule ∷ rules) u = apply_rules rules (apply_rule rule u)
