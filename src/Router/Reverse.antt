-- ===== src/Router/Reverse.antt =====
-- `reverse_domain_labels` of src/router.rs against its description: the labels in reverse order.
use mathlib.Core.List.{reverse-reverse}
use load_ants.Prelude.{
  ◌≡◌, refl, sym, ap, ◌∙◌, inl, inr, List, [], ◌∷◌, ◌++◌, reverse, Bool-cases, append_assoc,
}
use load_ants.Prelude.Texts.{Text, dot, contains, split, join}
use load_ants.Prelude.Parts.{
  Labels, split-Labels, join-split, split-join, split_of_Free, Labels-reverse,
}
use load_ants.Router.Names.{push_parts, join_parts, reverse_domain_labels}

join-push :
    (acc part : Text) (parts : List Text)
    → join dot ((acc ++ dot ∷ part) ∷ parts) ≡ acc ++ dot ∷ join dot (part ∷ parts)
unfolding join
join-push acc part [] = refl
join-push acc part (q ∷ parts) = append_assoc acc (dot ∷ part) (dot ∷ join dot (q ∷ parts))

push_parts-join : (acc : Text) (parts : List Text) → push_parts acc parts ≡ join dot (acc ∷ parts)
unfolding push_parts
push_parts-join acc [] = unfold join in refl
push_parts-join acc (part ∷ parts) =
    push_parts-join (acc ++ dot ∷ part) parts ∙ join-push acc part parts ∙ (unfold join in refl)

join_parts-join : (parts : List Text) → join_parts parts ≡ join dot parts
unfolding join_parts
join_parts-join [] = unfold join in refl
join_parts-join (part ∷ parts) = push_parts-join part parts

-- The dotless shortcut agrees with the general case.
pub reverse_domain_labels-join :
    (s : Text) → reverse_domain_labels s ≡ join dot (reverse (split dot s))
unfolding reverse_domain_labels
reverse_domain_labels-join s = elim (Bool-cases (contains s dot)) [
  | inl e ↦ rw e (join_parts-join (reverse (split dot s)))
  | inr e ↦ rw (e, split_of_Free dot s e) (unfold join in refl)
]

-- On joined labels it joins them in reverse order.
pub reverse_domain_labels_of_Labels :
    (ls : List Text) → Labels dot ls → reverse_domain_labels (join dot ls) ≡ join dot (reverse ls)
reverse_domain_labels_of_Labels ls h =
    reverse_domain_labels-join (join dot ls)
    ∙ ap (λ ks. join dot (reverse ks)) (split-join dot ls h)

-- Reversing the labels of a name twice gives the name back, with empty labels kept.
pub reverse_domain_labels_involutive :
    (s : Text) → reverse_domain_labels (reverse_domain_labels s) ≡ s
reverse_domain_labels_involutive s =
    ap reverse_domain_labels (reverse_domain_labels-join s)
    ∙ reverse_domain_labels_of_Labels (reverse (split dot s))
        (Labels-reverse dot (split dot s) (split-Labels dot s))
    ∙ ap (join dot) (reverse-reverse (split dot s))
    ∙ join-split dot s

-- So no two suffixes share a key.
pub reverse_domain_labels_injective :
    (s t : Text) → reverse_domain_labels s ≡ reverse_domain_labels t → s ≡ t
reverse_domain_labels_injective s t e =
    sym (reverse_domain_labels_involutive s)
    ∙ ap reverse_domain_labels e
    ∙ reverse_domain_labels_involutive t
