-- ===== src/DatabaseManager/Splitting.antt =====
-- How initSchema cuts a file into the statements that it sends.
use multi_player_game.Common.{
  ℕ, ◌≡◌, refl, sym, ap, ◌∙◌, inl, inr, ◌⊎◌, Bool, true, false, ◌||◌, List, [], ◌∷◌, ◌++◌, map,
  append_assoc, append-nil, some, Bool-cases, if◌then◌else◌, nat_beq, arith,
}
use multi_player_game.Common.Actions.{pure, ◌>>=◌}
use multi_player_game.MySql.{MySqlApi, HasLedger, Ledger}
use multi_player_game.DatabaseManager.{Link, call, get_conn, with_pointer, open_connection}
use multi_player_game.DatabaseManager.Schema.{
  newline, read_lines, is_comment, ends_statement, c_str, run_schema, init_schema, extend_first,
}

-- The lines that are no comments.
pub remarks_dropped : List (List ℕ) → List (List ℕ)
remarks_dropped [] = []
remarks_dropped (l ∷ ls) = let rest = remarks_dropped ls in if is_comment l then rest else l ∷ rest

-- Lines, each with a newline after it; and pieces one after the other.
pub unlines : List (List ℕ) → List ℕ
unlines [] = []
unlines (l ∷ ls) = l ++ newline ∷ unlines ls

pub joined : List (List ℕ) → List ℕ
joined [] = []
joined (q ∷ qs) = q ++ joined qs

-- Its last line is the first that has a `;`.
abbrev pub IsStatement : List ℕ → Type 0
IsStatement q =
    (before line : List ℕ) × (q ≡ before ++ line ++ newline ∷ [])
    × (ends_statement before ≡ false)
    × (ends_statement line ≡ true)

abbrev pub AllStatements : List (List ℕ) → Type 0
AllStatements [] = Unit {0}
AllStatements (q ∷ qs) = IsStatement q × AllStatements qs

-- The text is those statements and a rest without a `;`.
abbrev pub Splits : List ℕ → List (List ℕ) → Type 0
Splits text qs =
    (rest : List ℕ) × (text ≡ joined qs ++ rest) × (ends_statement rest ≡ false) × AllStatements qs

or_false : (a b : Bool) → a ≡ false → b ≡ false → (a || b) ≡ false
or_false a b ha hb = rw (ha, hb) refl

unended :
    (a b : List ℕ)
    → ends_statement a ≡ false
    → ends_statement b ≡ false
    → ends_statement (a ++ b) ≡ false
unfolding ends_statement
unended [] b ha hb = hb
unended (c ∷ a) b ha hb = ground (arith, unended a b)

grown :
    (a l : List ℕ)
    → ends_statement a ≡ false
    → ends_statement l ≡ false
    → ends_statement (a ++ l ++ newline ∷ []) ≡ false
unfolding ends_statement
grown a l ha hl = unended (a ++ l) (newline ∷ []) (unended a l ha hl) refl

extended : (s l u : List ℕ) → s ++ (l ++ newline ∷ u) ≡ (s ++ l ++ newline ∷ []) ++ u
extended s l u = sym (append_assoc (s ++ l) (newline ∷ []) u ∙ append_assoc s l (newline ∷ u))

-- The lines are those of the text, or of the text and a newline.
abbrev pub IsText : List (List ℕ) → List ℕ → Type 0
IsText ls text = (unlines ls ≡ text) ⊎ (unlines ls ≡ text ++ newline ∷ [])

-- One byte more at the front of the first line.
read_byte-IsText :
    (c : ℕ) (ls : List (List ℕ)) (text : List ℕ)
    → IsText ls text
    → IsText (if nat_beq c newline then [] ∷ ls else extend_first c ls) (c ∷ text)
unfolding unlines extend_first
read_byte-IsText c [] [] h = ground arith
read_byte-IsText c [] (d ∷ text) h = ground arith
read_byte-IsText c (l ∷ ls) text h = ground arith

read_lines-IsText : (text : List ℕ) → IsText (read_lines text) text
unfolding read_lines unlines
read_lines-IsText [] = inl refl
read_lines-IsText (c ∷ text) = read_byte-IsText c (read_lines text) text (read_lines-IsText text)

module _ {Double : Type 0} (mysql : MySqlApi Double) (kept : HasLedger mysql) where
  open mysql use {Handle, Client}

  abbrev sent : Link Handle Client → List (List ℕ)
  sent s = (kept.ledger s.client).queries

  -- From s to s' the statements of a text are sent.
  abbrev Sends : List ℕ → Link Handle Client → Link Handle Client → Type 0
  Sends text s s' = (qs : List (List ℕ)) × (sent s' ≡ sent s ++ map c_str qs) × Splits text qs

  run_schema-Sends :
      (lines : List (List ℕ)) (statement : List ℕ) (s : Link Handle Client)
      → ends_statement statement ≡ false
      → Sends
          (statement ++ unlines (remarks_dropped lines))
          s
          (run_schema mysql lines statement s).1
  unfolding run_schema ◌>>=◌ pure call get_conn unlines remarks_dropped joined
  run_schema-Sends [] statement s h = ([], sym (append-nil _), (statement, append-nil _, h, tt))
  run_schema-Sends (line ∷ lines) statement s h = elim (Bool-cases (is_comment line)) [
    | inl on ↦ rw (on, run_schema, remarks_dropped) (run_schema-Sends lines statement s h)
    | inr off ↦ elim (Bool-cases (ends_statement line)) [
      | inl ends ↦
          let q = statement ++ line ++ newline ∷ [] in
          let s' = (call mysql (mysql.query s.manager.conn (c_str q)) s).1 in
          let (qs, e, (rest, cut, open_rest, all)) = run_schema-Sends lines [] s' refl in
          let log = ap Ledger.queries (kept.query_lem s.manager.conn (c_str q) s.client) in
          rw (off, run_schema, remarks_dropped, ends)
            (
              q ∷ qs,
              e
                  ∙ ap (λ x. x ++ map c_str qs) log
                  ∙ append_assoc (sent s) (c_str q ∷ []) (map c_str qs),
              (
                rest,
                extended statement line (unlines (remarks_dropped lines))
                    ∙ ap (λ x. q ++ x) cut
                    ∙ sym (append_assoc q (joined qs) rest),
                open_rest,
                ((statement, line, refl, h, ends), all),
              ),
            )
      | inr goes_on ↦
          rw (off, run_schema, remarks_dropped, goes_on)
            (rw (extended statement line (unlines (remarks_dropped lines))) (
              run_schema-Sends lines (statement ++ line ++ newline ∷ []) s
                (grown statement line h goes_on)))
    ]
  ]

  -- initSchema on a file that can be read: it succeeds where `open` does. Then, of the file's text
  -- (completed by a newline where it does not end with one) without the lines that start with `--`,
  -- it sends in order all statements, each ending with the first line that has a `;`, and what is
  -- left over has none. Where `open` fails, it sends nothing more.
  pub init_schema-Sends :
      (sql : List ℕ) (s : Link Handle Client)
      → let (opened, s1) = open_connection mysql s in
        let (ok, s2) = init_schema mysql (some sql) s in
        (ok ≡ opened)
        × (if opened
            then Sends (unlines (remarks_dropped (read_lines sql))) s1 s2
            else sent s2 ≡ sent s1)
        × IsText (read_lines sql) sql
  unfolding init_schema ◌>>=◌ pure with_pointer
  init_schema-Sends sql s = elim (Bool-cases (open_connection mysql s).0) [
    | inl on ↦ rw on (refl, run_schema-Sends (read_lines sql) [] _ refl, read_lines-IsText sql)
    | inr off ↦ rw off (refl, refl, read_lines-IsText sql)
  ]
