-- ===== src/Router/Names.antt =====
-- The helpers of src/router.rs on domain names.
use load_ants.Prelude.{List, [], ◌∷◌, ◌++◌, reverse, if◌then◌else◌, not}
use load_ants.Prelude.Texts.{
  Text, dot, is_ascii, make_ascii_lowercase, ends_with, pop, contains, split,
}

-- The lower case of a name: in place for ASCII, by `to_lowercase` otherwise.
abbrev pub lower : (Text → Text) → Text → Text
lower to_lowercase s = if is_ascii s then make_ascii_lowercase s else to_lowercase s

-- `Router::normalize_domain_like`
unfoldable pub normalize_domain_like : (Text → Text) → Text → Text
normalize_domain_like to_lowercase s = lower to_lowercase (if ends_with s dot then pop s else s)

-- `rsplit` gives the parts from the last to the first; they are pushed with a dot before each but
-- the first.
unfoldable pub push_parts : Text → List Text → Text
push_parts reversed [] = reversed
push_parts reversed (part ∷ parts) = push_parts (reversed ++ dot ∷ part) parts

unfoldable pub join_parts : List Text → Text
unfolding push_parts
join_parts [] = []
join_parts (part ∷ parts) = push_parts part parts

-- `Router::reverse_domain_labels`
unfoldable pub reverse_domain_labels : Text → Text
unfolding join_parts contains
reverse_domain_labels domain_suffix =
    if not (contains domain_suffix dot)
    then domain_suffix
    else join_parts (reverse (split dot domain_suffix))
