-- ===== src/Runners/Command.antt =====
-- internal/pipeline/runner.go, parseCommand: a command on bytes, split at the spaces that stand
-- outside quotes.
use devsec.Base.{
  ℕ, ◌+◌, ◌≤◌, ◌≡◌, ◌≢◌, refl, Bool, true, false, not, ◌&&◌, List, [], ◌∷◌, ◌++◌, if◌then◌else◌,
  ◌==◌, ==_iff, arith, All, length, append-nil, append_assoc, ap, ◌∙◌, length-append,
}

abbrev pub Bytes : Type 0
Bytes = List ℕ

-- The variables of the loop.
pub record Reader : Type 0 where
  pub in_single_quote : Bool
  pub in_double_quote : Bool
  pub current : Bytes
  pub parts : List Bytes

-- if current.Len() > 0 { parts = append(parts, current.String()) }
flush : Bytes → List Bytes → List Bytes
flush [] parts = parts
flush (c ∷ cs) parts = parts ++ (c ∷ cs) ∷ []

-- The body of the loop.
unfoldable pub read_byte : ℕ → Reader → Reader
unfolding flush
read_byte c r =
    if c == b'\'' && not r.in_double_quote
    then record r { in_single_quote = not r.in_single_quote }
    else if c == b'"' && not r.in_single_quote
    then record r { in_double_quote = not r.in_double_quote }
    else if c == b' ' && not r.in_single_quote && not r.in_double_quote
    then record r { current = []; parts = flush r.current r.parts }
    else record r { current = r.current ++ c ∷ [] }

read_all : Bytes → Reader → Reader
unfolding read_byte
read_all [] r = r
read_all (c ∷ cs) r = read_all cs (read_byte c r)

abbrev fresh : Reader
fresh = record { in_single_quote = false; in_double_quote = false; current = []; parts = [] }

-- parseCommand
unfoldable pub parse_command : Bytes → List Bytes
unfolding read_all flush
parse_command command = let r = read_all command fresh in flush r.current r.parts

-- The arguments in single quotes, with a space behind each.
abbrev pub quoted : List Bytes → Bytes
quoted [] = []
quoted (arg ∷ args) = b'\'' ∷ arg ++ b'\'' ∷ b' ' ∷ quoted args

-- An argument that single quotes can hold, and that is not empty.
abbrev pub IsQuotable : Bytes → Type 0
IsQuotable arg = (arg ≢ []) × All (λ c. c ≢ b'\'') arg

read_byte-quoted :
    (c : ℕ) (cur : Bytes) (parts : List Bytes)
    → c ≢ b'\''
    → read_byte c
        (record { in_single_quote = true; in_double_quote = false; current = cur; parts = parts })
      ≡ record {
        in_single_quote = true;
        in_double_quote = false;
        current = cur ++ c ∷ [];
        parts = parts;
      }
unfolding read_byte
read_byte-quoted c cur parts h = ground (arith, ==_iff c b'\'')

-- Between single quotes, every other byte is kept.
read_all-quoted :
    (arg rest cur : Bytes) (parts : List Bytes)
    → All (λ c. c ≢ b'\'') arg
    → read_all
        (arg ++ rest)
        (record { in_single_quote = true; in_double_quote = false; current = cur; parts = parts })
      ≡ read_all rest (record {
        in_single_quote = true;
        in_double_quote = false;
        current = cur ++ arg;
        parts = parts;
      })
unfolding read_all
read_all-quoted [] rest cur parts h = rw (append-nil cur) refl
read_all-quoted (c ∷ arg) rest cur parts (here, h) =
    ap (read_all (arg ++ rest)) (read_byte-quoted c cur parts here)
    ∙ read_all-quoted arg rest (cur ++ c ∷ []) parts h
    ∙ ap
        (λ l.
          read_all rest (record {
            in_single_quote = true;
            in_double_quote = false;
            current = l;
            parts = parts;
          }))
        (append_assoc cur (c ∷ []) arg)

flush-nonempty : (arg : Bytes) (parts : List Bytes) → arg ≢ [] → flush arg parts ≡ parts ++ arg ∷ []
unfolding flush
flush-nonempty [] parts h = absurd (h refl)
flush-nonempty (c ∷ cs) parts h = refl

abbrev between : List Bytes → Reader
between parts = record fresh { parts = parts }

read_all-arg :
    (arg rest : Bytes) (parts : List Bytes)
    → IsQuotable arg
    → read_all (b'\'' ∷ arg ++ b'\'' ∷ b' ' ∷ rest) (between parts)
      ≡ read_all rest (between (parts ++ arg ∷ []))
unfolding read_all read_byte
read_all-arg arg rest parts (some_byte, plain) =
    read_all-quoted arg (b'\'' ∷ b' ' ∷ rest) [] parts plain
    ∙ ap (λ l. read_all rest (between l)) (flush-nonempty arg parts some_byte)

read_all-args :
    (args parts : List Bytes)
    → All IsQuotable args
    → read_all (quoted args) (between parts) ≡ between (parts ++ args)
unfolding read_all
read_all-args [] parts h = rw (append-nil parts) refl
read_all-args (arg ∷ args) parts (here, h) =
    read_all-arg arg (quoted args) parts here
    ∙ read_all-args args (parts ++ arg ∷ []) h
    ∙ ap between (append_assoc parts (arg ∷ []) args)

-- parseCommand gives the arguments back that are written in single quotes, one behind the other,
-- whatever spaces and double quotes they hold, if none is empty or has a single quote itself.
pub parse_command-quoted :
    (args : List Bytes) → All IsQuotable args → parse_command (quoted args) ≡ args
unfolding parse_command flush
parse_command-quoted args h = ap (λ r. flush r.current r.parts) (read_all-args args [] h)

-- Arguments that are not empty.
abbrev pub Nonempty : List Bytes → Type 0
Nonempty = All (λ arg. arg ≢ [])

Nonempty-snoc :
    (args : List Bytes) (arg : Bytes) → Nonempty args → arg ≢ [] → Nonempty (args ++ arg ∷ [])
Nonempty-snoc [] arg h new = (new, tt)
Nonempty-snoc (a ∷ args) arg (here, h) new = (here, Nonempty-snoc args arg h new)

flush-Nonempty : (cur : Bytes) (parts : List Bytes) → Nonempty parts → Nonempty (flush cur parts)
unfolding flush
flush-Nonempty [] parts h = h
flush-Nonempty (c ∷ cs) parts h = Nonempty-snoc parts (c ∷ cs) h (λ e. ground arith)

-- The bytes that the loop holds.
abbrev pub total_length : List Bytes → ℕ
total_length [] = 0
total_length (arg ∷ args) = length arg + total_length args

total_length-append :
    (xs ys : List Bytes) → total_length (xs ++ ys) ≡ total_length xs + total_length ys
total_length-append [] ys = omega arith
total_length-append (x ∷ xs) ys = omega (arith, total_length-append xs ys)

flush-total_length :
    (cur : Bytes) (parts : List Bytes)
    → total_length (flush cur parts) ≡ total_length parts + length cur
unfolding flush
flush-total_length [] parts = omega arith
flush-total_length (c ∷ cs) parts = omega (arith, total_length-append parts ((c ∷ cs) ∷ []))

abbrev held : Reader → ℕ
held r = total_length r.parts + length r.current

read_byte-keeps :
    (c : ℕ) (r : Reader)
    → Nonempty r.parts
    → Nonempty (read_byte c r).parts × (held (read_byte c r) ≤ held r + 1)
unfolding read_byte
read_byte-keeps c r h = ground (
  arith,
  flush-Nonempty r.current r.parts h,
  flush-total_length r.current r.parts,
  length-append r.current (c ∷ []),
)

read_all-keeps :
    (cs : Bytes) (r : Reader)
    → Nonempty r.parts
    → Nonempty (read_all cs r).parts × (held (read_all cs r) ≤ held r + length cs)
unfolding read_all
read_all-keeps [] r h = (h, omega arith)
read_all-keeps (c ∷ cs) r h =
    let (some_bytes, within) = read_byte-keeps c r h in
    let (all, whole) = read_all-keeps cs (read_byte c r) some_bytes in
    (all, omega (arith, within, whole))

-- No part that parseCommand returns is empty, and together they are no longer than the command.
pub parse_command-Nonempty :
    (command : Bytes)
    → Nonempty (parse_command command) × (total_length (parse_command command) ≤ length command)
unfolding parse_command
parse_command-Nonempty command =
    let r = read_all command fresh in
    let (all, within) = read_all-keeps command fresh tt in
    (
      flush-Nonempty r.current r.parts all,
      omega (arith, within, flush-total_length r.current r.parts),
    )
