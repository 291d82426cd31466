-- ===== src/Model/Kinds.antt =====
-- Kinds of data and their names on the command line and in the output (src/model.cpp).
use tracy_query.Prelude.{
  ℕ, suc, ◌≡◌, refl, sym, ap, ◌∙◌, true, some, List, [], ◌∷◌, if◌then◌else◌, Text, text_eq,
  text_eq→eq, get_or, find?_sound, ◌↔◌, ==_iff,
}
use tracy_query.Model.{Kind, kind_name, parse_kind, all_kinds, kind_number, kind_eq}

parse_kind-kind_name : (k : Kind) → parse_kind (kind_name k) ≡ some k
unfolding parse_kind
parse_kind-kind_name Kind.message = refl
parse_kind-kind_name _ = refl

parse_kind_named : (t : Text) (k : Kind) → parse_kind t ≡ some k → text_eq (kind_name k) t ≡ true
unfolding parse_kind
parse_kind_named t k = find?_sound (λ j. text_eq (kind_name j) t) all_kinds k

-- A text is read as a kind exactly when it is that kind's name.
pub parse_kind_iff : (t : Text) (k : Kind) → (parse_kind t ≡ some k) ↔ (t ≡ kind_name k)
parse_kind_iff t k = (
  λ e. sym (text_eq→eq (kind_name k) t (parse_kind_named t k e)),
  λ e. rw e (parse_kind-kind_name k),
)

-- How often a kind stands in a list.
pub occurrences : Kind → List Kind → ℕ
occurrences k [] = 0
occurrences k (x ∷ xs) = if kind_eq k x then suc (occurrences k xs) else occurrences k xs

-- Each kind stands in `all_kinds` once.
pub occurrences-all_kinds : (k : Kind) → occurrences k all_kinds ≡ 1
unfolding occurrences
occurrences-all_kinds Kind.message = refl
occurrences-all_kinds _ = refl

numbered : (k : Kind) → get_or all_kinds (kind_number k) Kind.message ≡ k
numbered Kind.message = refl
numbered _ = refl

pub kind_eq→eq : (a b : Kind) → kind_eq a b ≡ true → a ≡ b
kind_eq→eq a b h =
    sym (numbered a) ∙ ap (λ n. get_or all_kinds n Kind.message) ((==_iff _ _).0 h) ∙ numbered b
