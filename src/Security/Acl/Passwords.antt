-- ===== src/Security/Acl/Passwords.antt =====
-- Setting a password (src/astra/security/acl_manager.hpp).
use astra_db.Prelude.{
  ◌≡◌, refl, ◌∙◌, false, ◌&&◌, ◌||◌, some, [], ◌∷◌, ◌++◌, is_nil, Bytes, bytes_eq, ◌==◌, ==_refl,
  arith,
}
use astra_db.Abseil.{FlatHashMap}
use astra_db.Security.Acl
use astra_db.Security.Acl.{set_password, authenticate, get_user_info, contains}
use astra_db.Security.Users.{AclUser, apply_rule, apply_prefixed}
use astra_db.Security.Acl.Permissions.{contains-append}

module _ (H : FlatHashMap Bytes AclUser) where
  -- Setting a password adds it: the user gets in with it, and with every password that it had; the
  -- user stays on or off as it was, and a password is asked for from now on. Nobody else's entry is
  -- changed.
  set_password_lem :
      (name other password given : Bytes) (users : H.Table) (u : AclUser)
      → is_nil password ≡ false
      → H.find users name ≡ some u
      → (name == other) ≡ false
      → let users' = set_password H name password users in
        (authenticate H name given users'
          ≡ (u.enabled && (contains given u.passwords || (password == given))))
        × (get_user_info H other users' ≡ get_user_info H other users)
  unfolding set_password authenticate get_user_info apply_rule apply_prefixed
  set_password_lem name other [] given users u real there apart = absurd (cc)
  set_password_lem name other (c ∷ cs) given users u real there apart =
      let u' : AclUser = record u {
        no_password = false;
        passwords = u.passwords ++ (c ∷ cs) ∷ [];
      } in
      let found : H.find (H.insert_or_assign name u' users) name ≡ some u' =
        H.find-insert name u' users name ∙ rw (==_refl name) refl in
      let set : set_password H name (c ∷ cs) users ≡ H.insert_or_assign name u' users =
        rw (set_password, Acl.set_user, there) refl in
      (
        rw set
            (rw (authenticate, found) (ground (arith, contains-append given (c ∷ cs) u.passwords))),
        H.find-insert name _ users other ∙ rw apart refl,
      )
