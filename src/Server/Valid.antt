-- ===== src/Server/Valid.antt =====
-- pkg/server/routes_targets.go: what a target has that the checks accept, and that the store keeps it.
use vanitykeygen.Common.{
  String, none, some, List, [], ◌∷◌, ◌==◌, eq_iff, ◌≡◌, ◌⊎◌, refl, sym, subst, ap, ◌∙◌, arith, true,
  false, All, Bool-cases, inl, inr,
}
use vanitykeygen.Vkg.{Target, Time}
use vanitykeygen.Runtime.{Env}
use vanitykeygen.Server.Compile.{contains}
use vanitykeygen.Server.Validation.{
  Check, allowed_case_modes, allowed_target_types, allowed_match_scopes, check_enum, check_modes,
  validate_target_enums, validate_pattern, ◌and_then◌,
}
use vanitykeygen.Store.{TargetRow}
use vanitykeygen.Store.Targets.{scan_target, target_row, with_defaults, set_target, default_modes}
use vanitykeygen.Store.Targets.Roundtrip.{
  IsPiece, whole_seconds, scan_target-target_row, with_defaults-HasPieces, scan_target-set_target,
}

module _ (env : Env) where
  -- What the checks of a create or an update accept.
  pub record IsValid (t : Target) : Type 0 where
    pub pattern_given : (t.pattern == "") ≡ false
    pub enums : validate_target_enums env t ≡ none
    pub pattern_fine : validate_pattern env t ≡ none

  abbrev IsMode : String → Type 0
  IsMode m = (m ≡ "insensitive") ⊎ (m ≡ "sensitive") ⊎ (m ≡ "capitalized")

  contains-IsMode : (m : String) → contains allowed_case_modes m ≡ true → IsMode m
  unfolding contains
  contains-IsMode m h = elim (Bool-cases ("insensitive" == m)) [
    | inl e ↦ inl (sym ((eq_iff "insensitive" m).0 e))
    | inr other ↦ elim (Bool-cases ("sensitive" == m)) [
      | inl e ↦ inr (inl (sym ((eq_iff "sensitive" m).0 e)))
      | inr last ↦ inr (inr (sym ((eq_iff "capitalized" m).0 (ground arith))))
    ]
  ]

  IsMode-IsPiece : (m : String) → IsMode m → IsPiece m
  IsMode-IsPiece m (inl e) =
      subst IsPiece (sym e) (ground (arith, eq_iff "insensitive" ""), ground arith)
  IsMode-IsPiece m (inr (inl e)) =
      subst IsPiece (sym e) (ground (arith, eq_iff "sensitive" ""), ground arith)
  IsMode-IsPiece m (inr (inr e)) =
      subst IsPiece (sym e) (ground (arith, eq_iff "capitalized" ""), ground arith)

  -- Case modes that the check accepts can be joined and split again.
  check_modes-IsPiece : (ms : List String) → check_modes env ms ≡ none → All IsPiece ms
  unfolding check_modes
  check_modes-IsPiece [] h = tt
  check_modes-IsPiece (m ∷ ms) h = elim (Bool-cases (contains allowed_case_modes m)) [
    | inl allowed ↦ (
      IsMode-IsPiece m (contains-IsMode m allowed),
      check_modes-IsPiece ms (ground (arith, allowed)),
    )
    | inr other ↦ absurd (ground (arith, other))
  ]

  check_modes-default :
      (ms : List String) → check_modes env ms ≡ none → check_modes env (default_modes ms) ≡ none
  unfolding check_modes contains
  check_modes-default [] h = ground (arith, eq_iff "insensitive" "insensitive")
  check_modes-default (m ∷ ms) h = h

  -- The three checks that validateTargetEnums makes.
  record Enums (t : Target) : Type 0 where
    type_ : check_enum env allowed_target_types "type must be one of word, regex" t.type ≡ none
    scope :
        check_enum env allowed_match_scopes "match_scope must be one of fingerprint, pubkey, both"
          t.match_scope
        ≡ none
    modes : check_modes env t.case_modes ≡ none

  and_then-none : (a b : Check) → a and_then b ≡ none → (a ≡ none) × (b ≡ none)
  and_then-none none b h = (refl, h)
  and_then-none (some e) b h = absurd (ground arith)

  validate_target_enums-Enums : (t : Target) → validate_target_enums env t ≡ none → Enums t
  unfolding validate_target_enums
  validate_target_enums-Enums t h =
      let (a, bc) = and_then-none _ _ h in
      let (b, c) = and_then-none _ _ bc in record { type_ = a; scope = b; modes = c }

  Enums-validate_target_enums : (t : Target) → Enums t → validate_target_enums env t ≡ none
  unfolding validate_target_enums
  Enums-validate_target_enums t e = rw (e.type_, e.scope) e.modes

  pub IsValid-IsPiece : (t : Target) → IsValid t → All IsPiece t.case_modes
  IsValid-IsPiece t v =
      check_modes-IsPiece t.case_modes (validate_target_enums-Enums t v.enums).modes

  defaults-Enums : (t : Target) (id : String) (c : Time) → Enums t → Enums (with_defaults t id c)
  unfolding with_defaults check_enum contains
  defaults-Enums t id c e = record {
    type_ = elim (Bool-cases (t.type == "")) [
      | inl missing ↦ rw missing (ground (arith, eq_iff "regex" "regex"))
      | inr given ↦ rw given e.type_
    ];
    scope = elim (Bool-cases (t.match_scope == "")) [
      | inl missing ↦ rw missing (ground (arith, eq_iff "both" "both"))
      | inr given ↦ rw given e.scope
    ];
    modes = check_modes-default t.case_modes e.modes;
  }

  defaults-pattern :
      (t : Target) (id : String) (c : Time)
      → validate_pattern env (with_defaults t id c) ≡ validate_pattern env t
  unfolding with_defaults validate_pattern
  defaults-pattern t id c = elim (Bool-cases (t.type == "")) [
    | inl missing ↦
        rw
          (
            missing,
            validate_pattern,
            with_defaults,
            ap (λ x. x == "word") ((eq_iff t.type "").0 missing),
          )
          refl
    | inr given ↦ rw given refl
  ]

  with_defaults-IsValid :
      (t : Target) (id : String) (c : Time) → IsValid t → IsValid (with_defaults t id c)
  with_defaults-IsValid t id c v = record {
    pattern_given = unfold with_defaults in v.pattern_given;
    enums =
        Enums-validate_target_enums (with_defaults t id c)
          (defaults-Enums t id c (validate_target_enums-Enums t v.enums));
    pattern_fine = defaults-pattern t id c ∙ v.pattern_fine;
  }

  -- The checks do not look at the ID and the time.
  pub retime-IsValid :
      (t : Target) (id : String) (c : Time)
      → IsValid t
      → IsValid (record t { id = id; created_at = c })
  unfolding validate_target_enums validate_pattern
  retime-IsValid t id c v = record {
    pattern_given = v.pattern_given;
    enums = v.enums;
    pattern_fine = v.pattern_fine;
  }

  -- The row that CreateTarget inserts for a valid target is one.
  pub target_row-IsValid :
      (t : Target) (id : String) (c : Time)
      → IsValid t
      → IsValid (scan_target (target_row (with_defaults t id c)))
  target_row-IsValid t id c v =
      let full = with_defaults t id c in
      let (some_mode, pieces) = with_defaults-HasPieces t id c (IsValid-IsPiece t v) in
      subst IsValid (sym (scan_target-target_row full some_mode pieces)) (
        retime-IsValid full full.id ((whole_seconds full).created_at)
          (with_defaults-IsValid t id c v))

  modes_default-IsValid :
      (t : Target) → IsValid t → IsValid (record t { case_modes = default_modes t.case_modes })
  unfolding validate_pattern
  modes_default-IsValid t v =
      let e = validate_target_enums-Enums t v.enums in
      record {
        pattern_given = v.pattern_given;
        enums =
            Enums-validate_target_enums (record t { case_modes = default_modes t.case_modes })
              (record {
                type_ = e.type_;
                scope = e.scope;
                modes = check_modes-default t.case_modes e.modes;
              });
        pattern_fine = v.pattern_fine;
      }

  -- The row that UpdateTarget leaves for a valid target is one.
  pub set_target-IsValid :
      (t : Target) (r : TargetRow) → IsValid t → IsValid (scan_target (set_target t r))
  set_target-IsValid t r v =
      subst IsValid (sym (scan_target-set_target t r (IsValid-IsPiece t v))) (
        retime-IsValid (record t { case_modes = default_modes t.case_modes }) (scan_target r).id
          (scan_target r).created_at (modes_default-IsValid t v))
