-- ===== src/Dnsd/Zone/Lookup.antt =====
-- What a zone holds under a key.
use nycu_intro_np.Prelude.{
  ◌≡◌, ◌∙◌, ap, List, [], ◌∷◌, ◌++◌, keep, some, if◌then◌else◌, Map, find, arith, append_assoc,
  append-nil, Option-cases, inl, inr,
}
use nycu_intro_np.Dnsd.Record.{Record, Key, key}
use nycu_intro_np.Dnsd.Zone.{
  Zone, Records, key_beq, key_beq_iff, key_eq, push_record, add, add_all, found_or_none,
}

find-push_record :
    (k j : Key) (rr : Record) (m : Map Key Records)
    → found_or_none (find j (push_record k rr m))
      ≡ found_or_none (find j m) ++ (if key_beq k j then rr ∷ [] else [])
unfolding find push_record
find-push_record k j rr [] = ground arith
find-push_record k j rr ((i, rs) ∷ m) = ground (
  arith,
  key_beq_iff k j,
  key_beq_iff i k,
  key_beq_iff i j,
  find-push_record k j rr m,
  append-nil rs,
  append-nil (found_or_none (find j m)),
)

-- The records of a list that have the key `j`.
abbrev pub with_key : Key → List Record → Records
with_key j = keep (λ rr. key_beq (key rr.question) j)

add_rrs :
    (rr : Record) (z y : Zone) → add rr z ≡ some y → y.rrs ≡ push_record (key rr.question) rr z.rrs
unfolding add
add_rrs rr z y e = ground arith

-- A zone that is made holds under each key what it held before, followed by the records of the list
-- with that key, in the order of the list.
pub find-add_all :
    (rrs : List Record) (z z' : Zone) (j : Key)
    → add_all rrs z ≡ some z'
    → found_or_none (find j z'.rrs) ≡ found_or_none (find j z.rrs) ++ with_key j rrs
unfolding add_all
find-add_all [] z z' j h = ground (arith, append-nil (found_or_none (find j z.rrs)))
find-add_all (rr ∷ rrs) z z' j h = elim (Option-cases (add rr z)) [
  | inl e ↦ absurd (ground arith)
  | inr (y, e) ↦
      find-add_all rrs y z' j (ground arith)
      ∙ ap (λ m. found_or_none (find j m) ++ with_key j rrs) (add_rrs rr z y e)
      ∙ ground (
        arith,
        find-push_record (key rr.question) j rr z.rrs,
        append_assoc (found_or_none (find j z.rrs)) (rr ∷ []) (with_key j rrs),
        append-nil (found_or_none (find j z.rrs)),
      )
]
