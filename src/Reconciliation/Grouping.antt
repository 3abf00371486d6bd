-- ===== src/Reconciliation/Grouping.antt =====
-- The groups of the report's lines (`reconcile` of app/domain/reconciliation.py): a group holds exactly
-- the lines of the report with its reference, in their order.
use text.Mathlib.Text.{◌==◌ as str_eq}
use text.Mathlib.TextEquality.{eq_iff}
use text.Mathlib.TextPositions.{eq_refl}
use inpockets.Base.{
  String, false, ◌||◌, List, [], ◌∷◌, ◌++◌, keep, All, Bool-cases, ◌≡◌, refl, ap, subst, ◌∙◌, inl,
  inr, arith, if◌then◌else◌,
}
use inpockets.Reconciliation.{ExternalLine, Group, add_line, group_from, group_lines, in_groups}

-- The lines of the report with a reference.
abbrev pub lines_of_ref : String → List ExternalLine → List ExternalLine
lines_of_ref ref = keep (λ l. str_eq ref l.ref)

append_nil : (ls : List ExternalLine) → ls ++ [] ≡ ls
append_nil [] = refl
append_nil (l ∷ ls) = ap (λ rest. l ∷ rest) (append_nil ls)

lines_of_ref-append :
    (ref : String) (ls : List ExternalLine) (line : ExternalLine)
    → lines_of_ref ref (ls ++ line ∷ [])
      ≡ lines_of_ref ref ls ++ (if str_eq ref line.ref then line ∷ [] else [])
lines_of_ref-append ref [] line = refl
lines_of_ref-append ref (l ∷ ls) line = elim (Bool-cases (str_eq ref l.ref)) [
  | inl e ↦ rw (e, lines_of_ref-append ref ls line) refl
  | inr e ↦ rw (e, lines_of_ref-append ref ls line) refl
]

-- No two groups have the same reference.
AreDistinct : List Group → Type 0
AreDistinct [] = Unit
AreDistinct (g ∷ gs) = (in_groups g.ref gs ≡ false) × AreDistinct gs

abbrev pub Holds : List ExternalLine → Group → Type 0
Holds done g = lines_of_ref g.ref done ≡ g.first ∷ g.others

-- The groups hold the lines seen so far, with a group for each reference.
record IsGrouped (done : List ExternalLine) (gs : List Group) : Type 0 where
  hold : All (Holds done) gs
  distinct : AreDistinct gs
  covers : (ref : String) → in_groups ref gs ≡ false → lines_of_ref ref done ≡ []

in_groups-add_line :
    (ref : String) (line : ExternalLine) (gs : List Group)
    → in_groups ref (add_line line gs) ≡ (in_groups ref gs || str_eq line.ref ref)
unfolding add_line
in_groups-add_line ref line [] = ground arith
in_groups-add_line ref line (g ∷ gs) = ground (
  arith,
  eq_iff g.ref line.ref,
  eq_iff g.ref ref,
  eq_iff line.ref ref,
  in_groups-add_line ref line gs,
)

add_line-AreDistinct :
    (line : ExternalLine) (gs : List Group) → AreDistinct gs → AreDistinct (add_line line gs)
unfolding add_line AreDistinct
add_line-AreDistinct line [] h = (refl, tt)
add_line-AreDistinct line (g ∷ gs) h = elim (Bool-cases (str_eq g.ref line.ref)) [
  | inl e ↦ rw e h
  | inr e ↦ rw e (
    ground (
      arith,
      h.0,
      e,
      eq_iff g.ref line.ref,
      eq_iff line.ref g.ref,
      in_groups-add_line g.ref line gs,
    ),
    add_line-AreDistinct line gs h.1,
  )
]

unmoved :
    (ref : String) (done : List ExternalLine) (line : ExternalLine)
    → str_eq ref line.ref ≡ false
    → lines_of_ref ref (done ++ line ∷ []) ≡ lines_of_ref ref done
unmoved ref done line e =
    rw (lines_of_ref-append ref done line, e) (append_nil (lines_of_ref ref done))

others-Holds :
    (done : List ExternalLine) (line : ExternalLine) (gs : List Group)
    → in_groups line.ref gs ≡ false
    → All (Holds done) gs
    → All (Holds (done ++ line ∷ [])) gs
others-Holds done line [] out h = tt
others-Holds done line (g ∷ gs) out h =
    let e : str_eq g.ref line.ref ≡ false = ground (arith, out) in
    (unmoved g.ref done line e ∙ h.0, others-Holds done line gs (ground (arith, out)) h.1)

add_line-Holds :
    (done : List ExternalLine) (line : ExternalLine) (gs : List Group)
    → All (Holds done) gs
    → AreDistinct gs
    → (in_groups line.ref gs ≡ false → lines_of_ref line.ref done ≡ [])
    → All (Holds (done ++ line ∷ [])) (add_line line gs)
unfolding add_line AreDistinct
add_line-Holds done line [] h d c =
    (rw (lines_of_ref-append line.ref done line, eq_refl line.ref, c refl) refl, tt)
add_line-Holds done line (g ∷ gs) h d c = elim (Bool-cases (str_eq g.ref line.ref)) [
  | inl e ↦
      (let same = (eq_iff g.ref line.ref).0 e in
        rw e (
          rw (lines_of_ref-append g.ref done line, e, h.0) refl,
          others-Holds done line gs (rw (← same) d.0) h.1,
        ))
  | inr e ↦ rw e (
    unmoved g.ref done line e ∙ h.0,
    add_line-Holds done line gs h.1 d.1 (λ out. c (ground (arith, e, out))),
  )
]

add_line-IsGrouped :
    (done : List ExternalLine) (line : ExternalLine) (gs : List Group)
    → IsGrouped done gs
    → IsGrouped (done ++ line ∷ []) (add_line line gs)
add_line-IsGrouped done line gs v = record {
  hold = add_line-Holds done line gs v.hold v.distinct (v.covers line.ref);
  distinct = add_line-AreDistinct line gs v.distinct;
  covers = λ ref out.
      (let old : in_groups ref gs ≡ false = ground (arith, out, in_groups-add_line ref line gs) in
        let e : str_eq ref line.ref ≡ false =
          ground (
            arith,
            out,
            in_groups-add_line ref line gs,
            eq_iff ref line.ref,
            eq_iff line.ref ref,
          ) in
        unmoved ref done line e ∙ v.covers ref old);
}

append_cons :
    (done : List ExternalLine) (line : ExternalLine) (ls : List ExternalLine)
    → (done ++ line ∷ []) ++ ls ≡ done ++ line ∷ ls
append_cons [] line ls = refl
append_cons (l ∷ done) line ls = ap (λ rest. l ∷ rest) (append_cons done line ls)

group_from-IsGrouped :
    (ls done : List ExternalLine) (gs : List Group)
    → IsGrouped done gs
    → IsGrouped (done ++ ls) (group_from ls gs)
unfolding group_from
group_from-IsGrouped [] done gs v = rw (append_nil done) v
group_from-IsGrouped (line ∷ ls) done gs v =
    subst (λ all. IsGrouped all (group_from ls (add_line line gs))) (append_cons done line ls)
      (group_from-IsGrouped ls (done ++ line ∷ []) (add_line line gs)
        (add_line-IsGrouped done line gs v))

-- A group holds exactly the lines of the report with its reference.
pub group_lines-Holds : (external : List ExternalLine) → All (Holds external) (group_lines external)
unfolding group_lines AreDistinct
group_lines-Holds external =
    (group_from-IsGrouped external [] []
      (record { hold = tt; distinct = tt; covers = λ ref out. refl })).hold
