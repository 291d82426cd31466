-- ===== src/Query/Order.antt =====
-- `trace_order`, `record_less` and `identity` of src/query.cpp.
use tracy_query.Prelude.{
  ℕ, suc, ◌≡◌, refl, Bool, true, false, not, List, [], ◌∷◌, ◌++◌, arith, ltb, ◌==◌, if◌then◌else◌,
  Text, text_eq, text_lt, text_eq→eq, text_eq_refl,
}
use tracy_query.Prelude.Int.{ℤ, ltb_ℤ, eq_ℤ, eq_of_parts}
use tracy_query.Prelude.Decimal.{to_string}
use tracy_query.Model.{kind_name, kind_number, Record, TraceInput}

unfoldable pub identity : Record → Text
unfolding kind_name to_string
identity r =
    r.trace ++ (0x0a ∷ (r.source ++ (0x0a ∷ (kind_name r.kind ++ (0x0a ∷ to_string r.sequence)))))

-- The position of the first input with the label; their number if there is none.
unfoldable pub trace_order : List TraceInput → Text → ℕ
unfolding text_eq
trace_order [] label = 0
trace_order (t ∷ ts) label = if text_eq t.label label then 0 else suc (trace_order ts label)

-- What `record_less` compares.
pub record Key : Type 0 where
  pub timestamp : ℤ
  pub trace : ℕ
  pub kind : ℕ
  pub source : Text
  pub sequence : ℕ

unfoldable pub key_of : List TraceInput → Record → Key
unfolding trace_order
key_of inputs r = record {
  timestamp = r.timestamp_ns;
  trace = trace_order inputs r.trace;
  kind = kind_number r.kind;
  source = r.source;
  sequence = r.sequence;
}

-- The comparisons in order, each only where those before it are equal.
unfoldable pub source_less : Key → Key → Bool
source_less a b =
    if not (text_eq a.source b.source) then text_lt a.source b.source else ltb a.sequence b.sequence

unfoldable pub kind_less : Key → Key → Bool
kind_less a b = if not (a.kind == b.kind) then ltb a.kind b.kind else source_less a b

unfoldable pub trace_less : Key → Key → Bool
trace_less a b = if not (a.trace == b.trace) then ltb a.trace b.trace else kind_less a b

unfoldable pub key_less : Key → Key → Bool
key_less a b =
    if not (eq_ℤ a.timestamp b.timestamp) then ltb_ℤ a.timestamp b.timestamp else trace_less a b

unfoldable pub record_less : List TraceInput → Record → Record → Bool
unfolding key_of
record_less inputs left right = key_less (key_of inputs left) (key_of inputs right)

pub text_lt_irrefl : (s : Text) → text_lt s s ≡ false
unfolding text_lt
text_lt_irrefl [] = refl
text_lt_irrefl (x ∷ xs) = ground (arith, text_lt_irrefl xs)

pub text_lt_trans : (s t u : Text) → text_lt s t ≡ true → text_lt t u ≡ true → text_lt s u ≡ true
unfolding text_lt
text_lt_trans [] [] u h k = ground arith
text_lt_trans [] (y ∷ ys) [] h k = k
text_lt_trans [] (y ∷ ys) (z ∷ zs) h k = refl
text_lt_trans (x ∷ xs) [] u h k = ground arith
text_lt_trans (x ∷ xs) (y ∷ ys) [] h k = k
text_lt_trans (x ∷ xs) (y ∷ ys) (z ∷ zs) h k = ground (arith, text_lt_trans xs ys zs)

pub text_lt_total : (s t : Text) → text_lt s t ≡ false → text_lt t s ≡ false → s ≡ t
unfolding text_lt
text_lt_total [] [] h k = refl
text_lt_total [] (y ∷ ys) h k = ground arith
text_lt_total (x ∷ xs) [] h k = ground arith
text_lt_total (x ∷ xs) (y ∷ ys) h k = ground (arith, text_lt_total xs ys)

source_less_irrefl : (a : Key) → source_less a a ≡ false
unfolding source_less
source_less_irrefl a = ground (arith, text_lt_irrefl a.source, text_eq_refl a.source)

source_less_trans :
    (a b c : Key) → source_less a b ≡ true → source_less b c ≡ true → source_less a c ≡ true
unfolding source_less
source_less_trans a b c h k = ground (
  arith,
  text_eq→eq a.source b.source,
  text_eq→eq b.source c.source,
  text_eq→eq a.source c.source,
  text_eq_refl a.source,
  text_eq_refl b.source,
  text_lt_trans a.source b.source c.source,
  text_lt_irrefl a.source,
  text_lt_trans b.source a.source b.source,
)

kind_less_irrefl : (a : Key) → kind_less a a ≡ false
unfolding kind_less
kind_less_irrefl a = ground (arith, source_less_irrefl a)

kind_less_trans : (a b c : Key) → kind_less a b ≡ true → kind_less b c ≡ true → kind_less a c ≡ true
unfolding kind_less
kind_less_trans a b c h k = ground (arith, source_less_trans a b c)

trace_less_irrefl : (a : Key) → trace_less a a ≡ false
unfolding trace_less
trace_less_irrefl a = ground (arith, kind_less_irrefl a)

trace_less_trans :
    (a b c : Key) → trace_less a b ≡ true → trace_less b c ≡ true → trace_less a c ≡ true
unfolding trace_less
trace_less_trans a b c h k = ground (arith, kind_less_trans a b c)

pub key_less_irrefl : (a : Key) → key_less a a ≡ false
unfolding key_less
key_less_irrefl a = ground (arith, trace_less_irrefl a)

pub key_less_trans : (a b c : Key) → key_less a b ≡ true → key_less b c ≡ true → key_less a c ≡ true
unfolding key_less
key_less_trans a b c h k = ground (arith, trace_less_trans a b c)

-- Keys that the order does not tell apart are equal, field by field.
source_less_total :
    (a b : Key)
    → source_less a b ≡ false
    → source_less b a ≡ false
    → (a.source ≡ b.source) × (a.sequence ≡ b.sequence)
unfolding source_less
source_less_total a b h k = ground (
  arith,
  text_eq→eq a.source b.source,
  text_eq→eq b.source a.source,
  text_eq_refl a.source,
  text_lt_total a.source b.source,
)

kind_less_total :
    (a b : Key)
    → kind_less a b ≡ false
    → kind_less b a ≡ false
    → (a.kind ≡ b.kind) × (a.source ≡ b.source) × (a.sequence ≡ b.sequence)
unfolding kind_less
kind_less_total a b h k = ground (arith, source_less_total a b)

trace_less_total :
    (a b : Key)
    → trace_less a b ≡ false
    → trace_less b a ≡ false
    → (a.trace ≡ b.trace) × (a.kind ≡ b.kind) × (a.source ≡ b.source) × (a.sequence ≡ b.sequence)
unfolding trace_less
trace_less_total a b h k = ground (arith, kind_less_total a b)

same_time :
    (a b : Key)
    → key_less a b ≡ false
    → key_less b a ≡ false
    → (a.timestamp ≡ b.timestamp) × (trace_less a b ≡ false) × (trace_less b a ≡ false)
unfolding key_less
same_time a b h k = ground (arith, eq_of_parts a.timestamp b.timestamp)

pub key_less_total : (a b : Key) → key_less a b ≡ false → key_less b a ≡ false → a ≡ b
key_less_total a b h k =
    let first = same_time a b h k in ground (arith, trace_less_total a b first.1 first.2, first.0)
