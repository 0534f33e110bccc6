-- ===== src/Lvgen/Names/Camel.antt =====
-- Snake case to camel case, word by word.
use go_libvirt.Base.{◌==◌, ◌≡◌, refl, ap, ◌∙◌, true, false, List, [], ◌∷◌, ◌++◌, map, All}
use go_libvirt.Base.Text.{Bytes}
use go_libvirt.Lvgen.Names.{to_upper, to_lower, camel, from_snake_to_camel}

-- A word without underscores, and words with one between each and the next.
abbrev pub IsWord : Bytes → Type 0
IsWord = All (λ r. r == b'_' ≡ false)

abbrev pub join_under : Bytes → List Bytes → Bytes
join_under w [] = w
join_under w (v ∷ ws) = w ++ (b'_' ∷ join_under v ws)

abbrev pub capitalise : Bytes → Bytes
capitalise [] = []
capitalise (r ∷ s) = to_upper r ∷ map to_lower s

abbrev pub capitalise_all : Bytes → List Bytes → Bytes
capitalise_all w [] = capitalise w
capitalise_all w (v ∷ ws) = capitalise w ++ capitalise_all v ws

camel-word : (w s : Bytes) → IsWord w → camel false (w ++ s) ≡ map to_lower w ++ camel false s
unfolding camel
camel-word [] s h = refl
camel-word (r ∷ w) s h = rw (h.0, camel) (ap (λ t. to_lower r ∷ t) (camel-word w s h.1))

camel-all_lower : (w : Bytes) → IsWord w → camel false w ≡ map to_lower w
unfolding camel
camel-all_lower [] h = refl
camel-all_lower (r ∷ w) h = rw (h.0, camel) (ap (λ t. to_lower r ∷ t) (camel-all_lower w h.1))

camel-hump : (w s : Bytes) → IsWord w → camel true (w ++ (b'_' ∷ s)) ≡ capitalise w ++ camel true s
unfolding camel
camel-hump [] s h = refl
camel-hump (r ∷ w) s h = rw (h.0, camel) (ap (λ t. to_upper r ∷ t) (camel-word w (b'_' ∷ s) h.1))

camel-capitalise : (w : Bytes) → IsWord w → camel true w ≡ capitalise w
unfolding camel
camel-capitalise [] h = refl
camel-capitalise (r ∷ w) h = rw (h.0, camel) (ap (λ t. to_upper r ∷ t) (camel-all_lower w h.1))

-- Words, without underscores in them, that have an underscore between each and the next come out end
-- to end, each with its first rune in upper case and the others in lower case.
from_snake_to_camel-join_under :
    (w : Bytes) (ws : List Bytes)
    → IsWord w
    → All IsWord ws
    → from_snake_to_camel (join_under w ws) ≡ capitalise_all w ws
unfolding from_snake_to_camel camel
from_snake_to_camel-join_under w [] h hs = camel-capitalise w h
from_snake_to_camel-join_under w (v ∷ ws) h hs =
    camel-hump w (join_under v ws) h
    ∙ ap (λ t. capitalise w ++ t) (from_snake_to_camel-join_under v ws hs.0 hs.1)
