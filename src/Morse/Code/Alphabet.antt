-- ===== src/Morse/Code/Alphabet.antt =====
-- The international Morse alphabet, apart from the code, and how a listener reads it.
use Prim.Native.String.{String}
use Prim.Native.Char.{code}
use kernel_examples.Prelude.{
  ℕ, ◌+◌, ◌-◌, Bool, true, false, Option, none, some, List, [], ◌∷◌, ◌++◌, get_or, leb, ◌==◌, ◌&&◌,
  if◌then◌else◌,
}

pub data Mark : Type 0 where
  short long : Mark

-- The letters from A to Z.
abbrev pub alphabet : List String
alphabet =
    ".-" ∷ "-..." ∷ "-.-." ∷ "-.." ∷ "." ∷ "..-." ∷ "--." ∷ "...." ∷ ".." ∷ ".---" ∷ "-.-" ∷ ".-.."
    ∷ "--" ∷ "-." ∷ "---" ∷ ".--." ∷ "--.-" ∷ ".-." ∷ "..." ∷ "-" ∷ "..-" ∷ "...-" ∷ ".--" ∷ "-..-"
    ∷ "-.--" ∷ "--.." ∷ []

pub marks : String → List Mark
marks String.[] = []
marks (String.◌∷◌ c s) = (if code c == b'.' then short else long) ∷ marks s

-- The marks of the letter with this number, A being 0.
unfoldable pub letter_marks : ℕ → List Mark
unfolding marks
letter_marks n = marks (get_or alphabet n "")

unfoldable pub same_marks : List Mark → List Mark → Bool
same_marks [] [] = true
same_marks (short ∷ a) (short ∷ b) = same_marks a b
same_marks (long ∷ a) (long ∷ b) = same_marks a b
same_marks _ _ = false

-- The letter, as its byte, that a listener finds in the alphabet from number `n` on.
unfoldable pub find_letter : List Mark → ℕ → List String → Option ℕ
unfolding same_marks marks
find_letter heard n [] = none
find_letter heard n (s ∷ alphabet) =
    let rest = find_letter heard (n + 1) alphabet in
    if same_marks heard (marks s) then some (b'A' + n) else rest

abbrev pub is_upper : ℕ → Bool
is_upper c = leb b'A' c && leb c b'Z'

abbrev pub is_lower : ℕ → Bool
is_lower c = leb b'a' c && leb c b'z'

-- The letters of a text, as upper case.
unfoldable pub letters : List ℕ → List ℕ
letters [] = []
letters (c ∷ text) =
    (if is_upper c then c ∷ [] else if is_lower c then (c - 32) ∷ [] else []) ++ letters text
