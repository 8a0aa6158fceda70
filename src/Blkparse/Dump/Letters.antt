-- ===== src/Blkparse/Dump/Letters.antt =====
-- The letters of the lines that are printed for the records, and what is added to the outputs.
use iovisualization.Prelude.{
  ◌%◌, ◌^◌, Bool, ◌&&◌, ◌||◌, not, Option, none, some, List, [], ◌∷◌, ◌==◌, if◌then◌else◌,
}
use iovisualization.Trace.{IoTrace}
use iovisualization.Blkparse.Track.{has_class}
use iovisualization.Blkparse.Dump.{
  Act, Letter, letter_q, letter_g, letter_s, letter_r, letter_d, letter_c, letter_i, letter_m,
  letter_f, letter_p, letter_u, letter_ut, letter_x, letter_b, letter_a, letter_n, Line, act_of,
  is_message,
}

-- the letter of an event of a packet command, if it has a line
unfoldable pub pc_letter : Act → Option Letter
pc_letter Act.queue = some letter_q
pc_letter Act.backmerge = none
pc_letter Act.frontmerge = none
pc_letter Act.getrq = some letter_g
pc_letter Act.sleeprq = some letter_s
pc_letter Act.requeue = some letter_r
pc_letter Act.issue = some letter_d
pc_letter Act.complete = some letter_c
pc_letter Act.plug = none
pc_letter Act.unplug_io = none
pc_letter Act.unplug_timer = none
pc_letter Act.insert = some letter_i
pc_letter Act.split = none
pc_letter Act.bounce = none
pc_letter Act.remap = none
pc_letter Act.drv_data = none
pc_letter Act.other = none

-- and of one of the file system
unfoldable pub fs_letter : Act → Option Letter
fs_letter Act.queue = some letter_q
fs_letter Act.backmerge = some letter_m
fs_letter Act.frontmerge = some letter_f
fs_letter Act.getrq = some letter_g
fs_letter Act.sleeprq = some letter_s
fs_letter Act.requeue = some letter_r
fs_letter Act.issue = some letter_d
fs_letter Act.complete = some letter_c
fs_letter Act.plug = some letter_p
fs_letter Act.unplug_io = some letter_u
fs_letter Act.unplug_timer = some letter_ut
fs_letter Act.insert = some letter_i
fs_letter Act.split = some letter_x
fs_letter Act.bounce = some letter_b
fs_letter Act.remap = some letter_a
fs_letter Act.drv_data = none
fs_letter Act.other = none

-- A message has a line if it has a text.
abbrev pub letter_of : IoTrace → Option Letter
letter_of t =
    if is_message t
    then (if t.pdu_len == 0 then none else some letter_n)
    else if has_class 9 t
    then pc_letter (act_of (t.action % 2 ^ 16))
    else fs_letter (act_of (t.action % 2 ^ 16))

-- the letters of the lines of an output, each with its record
abbrev pub heads : List Line → List (Letter × IoTrace)
heads [] = []
heads (line ∷ text) = (line.letter, line.event) ∷ heads text

abbrev pub add_head : Option Letter → IoTrace → List (Letter × IoTrace) → List (Letter × IoTrace)
add_head none t lines = lines
add_head (some letter) t lines = (letter, t) ∷ lines

-- the binary output with a record, where the option for messages lets it through
abbrev pub add_binary : Bool → IoTrace → List IoTrace → List IoTrace
add_binary bin_output_msgs t binary =
    if bin_output_msgs || not (has_class 10 t && is_message t) then t ∷ binary else binary
