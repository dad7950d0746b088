-- ===== src/Tests/Security.antt =====
-- Runs of users, rules and patterns.
use astra_db.Prelude.{◌≡◌, ◌↔◌, refl, true, false, List, [], ◌∷◌, ◌++◌, Bytes, bytes, bytes_eq}
use astra_db.Abseil.{FlatHashMap}
use astra_db.Abseil.Model.{model}
use astra_db.Security.Acl.{may_run, matches, contains}
use astra_db.Security.Users.{AclUser, new_user, apply_rules, apply_rule, to_acl_list_string}
use astra_db.Security.Acl.Permissions.{start, heed_all, decision}
use astra_db.Security.Acl.Rules.{granted}
use astra_db.Security.Acl.Patterns.{matches_lem}

abbrev table : FlatHashMap Bytes AclUser
table = model Bytes AclUser

abbrev rules : List Bytes
rules = bytes "on" ∷ bytes "+get" ∷ bytes "+set" ∷ bytes "-set" ∷ bytes "~user:*" ∷ []

granted_example :
    may_run (apply_rules rules (new_user (bytes "ann"))) (bytes "set")
    ≡ decision (bytes "set") (heed_all rules start)
granted_example = granted (bytes "ann") (bytes "set") rules

-- A command that is taken away may still run; behind `-@all`, one that is granted may not.
taken_away : may_run (apply_rules rules (new_user (bytes "ann"))) (bytes "set") ≡ true
unfolding may_run apply_rules apply_rule new_user contains
taken_away = refl

after_none :
    may_run
      (apply_rules (bytes "on" ∷ bytes "-@all" ∷ bytes "+get" ∷ []) (new_user (bytes "ann")))
      (bytes "get")
    ≡ false
unfolding may_run apply_rules apply_rule new_user contains
after_none = refl

matches_lem_example :
    ((matches (bytes "user:" ++ b'*' ∷ bytes ":name") (bytes "user:7:name") ≡ true)
      ↔ ((middle : Bytes) × (bytes "user:7:name" ≡ bytes "user:" ++ middle ++ bytes ":name")))
    × ((matches (bytes "user:") (bytes "user:7:name") ≡ true)
        ↔ (bytes "user:7:name" ≡ bytes "user:"))
matches_lem_example =
    matches_lem (bytes "user:") (bytes ":name") (bytes "user:7:name")
      (refl, (refl, (refl, (refl, (refl, tt)))))

abbrev ann : AclUser
ann = record {
  username = bytes "ann";
  enabled = true;
  all_keys = false;
  all_channels = false;
  no_password = false;
  passwords = bytes "old" ∷ [];
  categories = [];
  commands = [];
  key_patterns = [];
  channel_patterns = [];
}

abbrev users : table.Table
users = table.insert_or_assign (bytes "ann") ann table.empty

listed : to_acl_list_string ann ≡ bytes "user ann on "
unfolding to_acl_list_string
listed = refl
