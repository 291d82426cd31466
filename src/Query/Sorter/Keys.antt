-- ===== src/Query/Sorter/Keys.antt =====
-- The order of the merge: the queue's comparison is that of the records' keys.
use tracy_query.Prelude.{
  ◌≡◌, ap, Bool, true, false, List, arith, Bool-cases, text_eq→eq, text_eq_refl, inl, inr,
}
use tracy_query.Prelude.Int.{eq_of_parts}
use tracy_query.Prelude.Sorting.{IsOrder}
use tracy_query.Model.{TraceInput}
use tracy_query.Query.Order.{
  Key, key_of, key_less, trace_less, kind_less, source_less, record_less, key_less_irrefl,
  key_less_trans, key_less_total,
}
use tracy_query.Query.Sorter.{Node, later}

abbrev pub node_key : Node → Key
node_key n = record {
  timestamp = n.timestamp;
  trace = n.trace;
  kind = n.kind;
  source = n.source;
  sequence = n.sequence;
}

abbrev pub earlier : Node → Node → Bool
earlier a b = later b a

pub later_lem : (a b : Node) → later a b ≡ key_less (node_key b) (node_key a)
unfolding later key_less trace_less kind_less source_less
later_lem a b = ground (
  arith,
  text_eq→eq a.source b.source,
  text_eq→eq b.source a.source,
  text_eq_refl a.source,
  text_eq_refl b.source,
  eq_of_parts a.timestamp b.timestamp,
)

pub key_less_asymm : (a b : Key) → key_less a b ≡ true → key_less b a ≡ false
key_less_asymm a b h = ground (arith, key_less_irrefl a, key_less_trans a b a)

pub key_less_le_trans :
    (a b c : Key) → key_less b a ≡ false → key_less c b ≡ false → key_less c a ≡ false
key_less_le_trans a b c h k = elim (Bool-cases (key_less c a)) [
  | inl lt ↦ elim (Bool-cases (key_less a b)) [
    | inl lt₂ ↦ ground (arith, key_less_trans c a b)
    | inr ge ↦ let e = key_less_total a b ge h in ground (arith, e, ap (key_less c) e)
  ]
  | inr ge ↦ ge
]

pub earlier-IsOrder : IsOrder earlier
earlier-IsOrder = record {
  asymm =
      λ a b. ground (arith, later_lem b a, later_lem a b, key_less_asymm (node_key a) (node_key b));
  le_trans = λ a b c. ground (
    arith,
    later_lem a b,
    later_lem b c,
    later_lem a c,
    key_less_le_trans (node_key a) (node_key b) (node_key c),
  );
}

pub record_less-IsOrder : (inputs : List TraceInput) → IsOrder (record_less inputs)
unfolding record_less
record_less-IsOrder inputs = record {
  asymm = λ a b. key_less_asymm (key_of inputs a) (key_of inputs b);
  le_trans = λ a b c. key_less_le_trans (key_of inputs a) (key_of inputs b) (key_of inputs c);
}
