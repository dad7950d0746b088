-- ===== src/Security/Acl/Rules.antt =====
-- The rules of `SetUser` one after another (src/astra/security/acl_manager.hpp).
use astra_db.Prelude.{
  ℕ, ◌≡◌, refl, sym, ap, ◌∙◌, inl, inr, Bool, true, false, ◌||◌, List, [], ◌∷◌, nat_eqb,
  nat_eqb_iff, Bytes, bytes, bytes_eq, ◌==◌, ==_iff, if◌then◌else◌, Bool-cases,
}
use mathlib.Core.Path.{subst}
use astra_db.Security.Acl.{contains, may_run}
use astra_db.Security.Users.{AclUser, new_user, apply_rule, apply_rules, apply_prefixed}
use astra_db.Security.Acl.Permissions.{
  Standing, start, heed, heed_all, grant, decision, decide, Stands, Agrees-plus, Agrees-minus,
}

-- To prove something of a rule: at the word, and where the rule is not the word.
by_test :
    (word rule : Bytes) (P : Bytes → Type 0) → P word → ((rule == word) ≡ false → P rule) → P rule
by_test word rule P here elsewhere = elim (Bool-cases (rule == word)) [
  | inl same ↦ subst P (sym ((==_iff rule word).0 same)) here
  | inr other ↦ elsewhere other
]

either :
    (s : Standing) (b : Bool) (u v : AclUser)
    → Stands u s
    → Stands v s
    → Stands (if b then u else v) s
either s true u v h k = h
either s false u v h k = k

-- Rules for passwords, keys and channels.
other_lem :
    (c : ℕ) (suffix : Bytes) (u : AclUser) (s : Standing)
    → nat_eqb c b'+' ≡ false
    → nat_eqb c b'-' ≡ false
    → Stands u s
    → Stands (apply_prefixed c suffix u) s
unfolding apply_prefixed
other_lem c suffix u s plus minus h =
    rw (apply_prefixed, plus, minus)
      (either s (nat_eqb c b'>' || nat_eqb c b'#') _ _
        (record { active = h.active; grants = h.grants })
        (either s (nat_eqb c b'<') _ _ (record { active = h.active; grants = h.grants })
          (either s (nat_eqb c b'~') _ _
            (either s (suffix == bytes "*") _ _ (record { active = h.active; grants = h.grants })
              (record { active = h.active; grants = h.grants }))
            (either s (nat_eqb c b'&') _ _
              (either s (suffix == bytes "*") _ _ (record { active = h.active; grants = h.grants })
                (record { active = h.active; grants = h.grants }))
              h))))

prefixed_lem :
    (c d : ℕ) (suffix : Bytes) (u : AclUser) (s : Standing)
    → ((c ∷ d ∷ suffix) == bytes "+@all") ≡ false
    → ((c ∷ d ∷ suffix) == bytes "-@all") ≡ false
    → Stands u s
    → Stands
        (apply_prefixed c (d ∷ suffix) u)
        (if nat_eqb c b'+' then record s { grants = grant (d ∷ suffix) s.grants } else s)
unfolding apply_prefixed
prefixed_lem c d suffix u s plus minus h =
    let P : ℕ → Type 0 = λ x.
      ((x ∷ d ∷ suffix) == bytes "+@all") ≡ false
      → ((x ∷ d ∷ suffix) == bytes "-@all") ≡ false
      → Stands (apply_prefixed x (d ∷ suffix) u)
          (if nat_eqb x b'+' then record s { grants = grant (d ∷ suffix) s.grants } else s) in
    elim (Bool-cases (nat_eqb c b'+')) [
      | inl adds ↦
          subst P (sym ((nat_eqb_iff c b'+').0 adds))
            (λ p m. record {
              active = h.active;
              grants = Agrees-plus u.commands u.categories d suffix s.grants p h.grants;
            })
            plus minus
      | inr not_plus ↦ elim (Bool-cases (nat_eqb c b'-')) [
        | inl removes ↦
            subst P (sym ((nat_eqb_iff c b'-').0 removes))
              (λ p m. record {
                active = h.active;
                grants = Agrees-minus u.commands u.categories d suffix s.grants m h.grants;
              })
              plus minus
        | inr not_minus ↦
            let t : Standing =
              if nat_eqb c b'+' then record s { grants = grant (d ∷ suffix) s.grants } else s in
            let kept : t ≡ s = rw not_plus refl in
            subst (λ (x : Standing). Stands (apply_prefixed c (d ∷ suffix) u) x) (sym kept)
              (other_lem c (d ∷ suffix) u s not_plus not_minus h)
      ]
    ]

rest_lem :
    (rule : Bytes) (u : AclUser) (s : Standing)
    → (rule == bytes "+@all") ≡ false
    → (rule == bytes "-@all") ≡ false
    → Stands u s
    → Stands
        (elim rule [ prefix ∷ c ∷ suffix ↦ apply_prefixed prefix (c ∷ suffix) u | _ ↦ u ])
        (elim rule [
          | c ∷ d ∷ name ↦
              if nat_eqb c b'+' then record s { grants = grant (d ∷ name) s.grants } else s
          | _ ↦ s
        ])
rest_lem [] u s plus minus h = h
rest_lem (c ∷ []) u s plus minus h = h
rest_lem (c ∷ d ∷ name) u s plus minus h = prefixed_lem c d name u s plus minus h

apply_rule_lem :
    (rule : Bytes) (u : AclUser) (s : Standing)
    → Stands u s
    → Stands (apply_rule rule u) (heed rule s)
unfolding apply_rule heed new_user contains
apply_rule_lem rule u s h =
    let P : Bytes → Type 0 = λ r. Stands (apply_rule r u) (heed r s) in
    by_test (bytes "on") rule P (record { active = refl; grants = h.grants })
      λ not_on.
        by_test (bytes "off") rule P (record { active = refl; grants = h.grants })
          λ not_off.
            by_test (bytes "nopass") rule P (record { active = h.active; grants = h.grants })
              λ not_nopass.
                by_test (bytes "allkeys") rule P (record { active = h.active; grants = h.grants })
                  λ not_allkeys.
                    by_test (bytes "allchannels") rule P
                      (record { active = h.active; grants = h.grants })
                      λ not_allchannels.
                        by_test (bytes "reset") rule P
                          (record {
                            active = refl;
                            grants = (refl, refl, refl, refl, refl, λ c. refl);
                          })
                          λ not_reset.
                            by_test (bytes "resetkeys") rule P
                              (record { active = h.active; grants = h.grants })
                              λ not_resetkeys.
                                by_test (bytes "resetchannels") rule P
                                  (record { active = h.active; grants = h.grants })
                                  λ not_resetchannels.
                                    by_test (bytes "resetpass") rule P
                                      (record { active = h.active; grants = h.grants })
                                      λ not_resetpass.
                                        by_test (bytes "allcommands") rule P
                                          (record { active = h.active; grants = (refl, refl) })
                                          λ not_allcommands.
                                            by_test (bytes "+@all") rule P
                                              (record { active = h.active; grants = (refl, refl) })
                                              λ not_plus_all.
                                                by_test (bytes "nocommands") rule P
                                                  (record { active = h.active; grants = refl })
                                                  λ not_nocommands.
                                                    by_test (bytes "-@all") rule P
                                                      (record { active = h.active; grants = refl })
                                                      λ not_minus_all.
                                                        rw
                                                          (
                                                            apply_rule, heed, not_on, not_off,
                                                            not_nopass, not_allkeys,
                                                            not_allchannels, not_reset,
                                                            not_resetkeys, not_resetchannels,
                                                            not_resetpass, not_allcommands,
                                                            not_plus_all, not_nocommands,
                                                            not_minus_all,
                                                          )
                                                          (rest_lem rule u s not_plus_all
                                                            not_minus_all h)

apply_rules_lem :
    (rules : List Bytes) (u : AclUser) (s : Standing)
    → Stands u s
    → Stands (apply_rules rules u) (heed_all rules s)
unfolding apply_rules heed_all
apply_rules_lem [] u s h = h
apply_rules_lem (rule ∷ rules) u s h =
    apply_rules_lem rules (apply_rule rule u) (heed rule s) (apply_rule_lem rule u s h)

-- What the rules of a new user say of a command: it may run if the user is on and, since the last
-- `reset`, `+@all` or `-@all`, everything was granted, or that was a `reset` (or there was none) and
-- `+command` came behind it. Behind `-@all`, a `+command` grants nothing, and a `-command` never
-- takes anything away.
pub granted :
    (name command : Bytes) (rules : List Bytes)
    → may_run (apply_rules rules (new_user name)) command ≡ decision command (heed_all rules start)
unfolding start new_user contains decision
granted name command rules =
    let h =
      apply_rules_lem rules (new_user name) start
        (record { active = refl; grants = (refl, refl, refl, refl, refl, λ c. refl) }) in
    let u = apply_rules rules (new_user name) in
    let s = heed_all rules start in
    decide u s.grants command h.grants
    ∙ ap (λ (b : Bool). decision command (record { active = b; grants = s.grants })) h.active
