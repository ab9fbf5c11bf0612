-- ===== src/Node/Status/Facts/Dump.antt =====
-- What `collectWireGuardInterfaces` reads is what wg(8) prints.
use nodemanager.Common.{All, Bool, List, String, [], false, nat_eq}
use nodemanager.Common.{ℕ, ◌++◌, ◌∷◌, ◌≡◌}
use Prim.Native.Char.{Char, code}
use nodemanager.Api.{WireGuardInterface}
use nodemanager.Node.Status.Facts.{interface_of_fields}
use text.Mathlib.TextBridge.{to_list}

-- A line of fields, of which there is at least one.
abbrev pub Line : Type 0
Line = String × List String

abbrev tab : Char
tab = "\t"

abbrev newline : Char
newline = "\n"

abbrev pub line_chars : String → List String → List Char
line_chars f [] = to_list f
line_chars f (g ∷ fs) = to_list f ++ tab ∷ line_chars g fs

-- Fields with tabs between them, lines with newlines behind them.
abbrev pub dump_chars : List Line → List Char
dump_chars [] = []
dump_chars ((f, fs) ∷ lines) = line_chars f fs ++ newline ∷ dump_chars lines

abbrev pub Without : ℕ → List Char → Type 0
Without n = All (λ c. nat_eq (code c) n ≡ false)

abbrev pub IsField : String → Type 0
IsField f = Without b'\t' (to_list f) × Without b'\n' (to_list f)

abbrev pub IsLine : Line → Type 0
IsLine (f, fs) = IsField f × All IsField fs

abbrev pub interfaces_among : List Line → List WireGuardInterface
interfaces_among [] = []
interfaces_among ((f, fs) ∷ lines) = interface_of_fields (f ∷ fs) ++ interfaces_among lines

module _ (n : ℕ) where
  abbrev sep : Char → Bool
  sep c = nat_eq (code c) n
