-- ===== src/Dlq/Lines.antt =====
-- Lines written to a dead-letter file are the lines read from it.
use multiedge_relay_python.Prelude.{◌≡◌, false, [], ◌∷◌, ◌++◌, Text, All, if◌then◌else◌}
use multiedge_relay_python.Dlq.{is_break}

-- The line that is begun where a text ends; it is empty at the end of whole lines.
abbrev pub last_line : Text → Text → Text
last_line line [] = line
last_line line (c ∷ t) = last_line (if is_break c then [] else line ++ c ∷ []) t

-- Empty, or ended by a line break.
abbrev pub IsWhole : Text → Type 0
IsWhole content = last_line [] content ≡ []

-- No character breaks the line.
abbrev pub IsLine : Text → Type 0
IsLine t = All (λ c. is_break c ≡ false) t
