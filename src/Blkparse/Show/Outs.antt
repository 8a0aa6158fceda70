-- ===== src/Blkparse/Show/Outs.antt =====
-- What a run of records shown leaves in the two outputs.
use iovisualization.Prelude.{ℕ, ◌≡◌, ap, ◌∙◌, Bool, none, List, [], ◌∷◌, if◌then◌else◌}
use iovisualization.Trace.{IoTrace}
use iovisualization.Blkparse.Sort.{Tr}
use iovisualization.Blkparse.Dump.{Letter}
use iovisualization.Blkparse.Dump.Letters.{letter_of, heads, add_head, add_binary}
use iovisualization.Blkparse.Show.{Shown, is_masked_in}

-- the lines of the records that the mask of actions lets through, the last first, before others
abbrev pub lines_of : ℕ → Bool → List Tr → List (Letter × IoTrace) → List (Letter × IoTrace)
lines_of act_mask text_output [] lines = lines
lines_of act_mask text_output (t ∷ ts) lines = lines_of act_mask text_output ts (
    if is_masked_in act_mask t.bit
    then add_head (if text_output then letter_of t.bit else none) t.bit lines
    else lines)

-- and the records themselves, for the binary output
abbrev pub records_of : ℕ → Bool → List Tr → List IoTrace → List IoTrace
records_of act_mask bin_output_msgs [] binary = binary
records_of act_mask bin_output_msgs (t ∷ ts) binary =
    records_of act_mask bin_output_msgs ts
      (if is_masked_in act_mask t.bit then add_binary bin_output_msgs t.bit binary else binary)

-- The records `shown` were printed, in their order, and no others.
pub record Printed (s : Shown) (shown : List Tr) (s' : Shown) : Type 0 where
  pub lines : heads s'.text ≡ lines_of s.act_mask s.text_output shown (heads s.text)
  pub records : s'.binary ≡ records_of s.act_mask s.bin_output_msgs shown s.binary

-- the options that decide what is printed and when the loop stops, and the maps of processors
pub record SameOptions (s s' : Shown) : Type 0 where
  pub act_mask : s'.act_mask ≡ s.act_mask
  pub text_output : s'.text_output ≡ s.text_output
  pub bin_output_msgs : s'.bin_output_msgs ≡ s.bin_output_msgs
  pub pipeline : s'.pipeline ≡ s.pipeline
  pub read_sequence : s'.read_sequence ≡ s.read_sequence
  pub last_allowed_time : s'.last_allowed_time ≡ s.last_allowed_time
  pub maps : s'.maps ≡ s.maps

-- one record printed, and then a run
pub Printed-cons :
    (t : Tr) (ts : List Tr) (s s' s'' : Shown)
    → SameOptions s s'
    → Printed s (t ∷ []) s'
    → Printed s' ts s''
    → Printed s (t ∷ ts) s''
Printed-cons t ts s s' s'' o p r = record {
  lines =
      r.lines
      ∙ ap (λ mask. lines_of mask s'.text_output ts (heads s'.text)) o.act_mask
      ∙ ap (λ on. lines_of s.act_mask on ts (heads s'.text)) o.text_output
      ∙ ap (lines_of s.act_mask s.text_output ts) p.lines;
  records =
      r.records
      ∙ ap (λ mask. records_of mask s'.bin_output_msgs ts s'.binary) o.act_mask
      ∙ ap (λ on. records_of s.act_mask on ts s'.binary) o.bin_output_msgs
      ∙ ap (records_of s.act_mask s.bin_output_msgs ts) p.records;
}

pub Printed-from :
    (ts : List Tr) (s s' s'' : Shown)
    → s'.text ≡ s.text
    → s'.binary ≡ s.binary
    → SameOptions s s'
    → Printed s' ts s''
    → Printed s ts s''
Printed-from ts s s' s'' e f o r = record {
  lines =
      r.lines
      ∙ ap (λ mask. lines_of mask s'.text_output ts (heads s'.text)) o.act_mask
      ∙ ap (λ on. lines_of s.act_mask on ts (heads s'.text)) o.text_output
      ∙ ap (λ text. lines_of s.act_mask s.text_output ts (heads text)) e;
  records =
      r.records
      ∙ ap (λ mask. records_of mask s'.bin_output_msgs ts s'.binary) o.act_mask
      ∙ ap (λ on. records_of s.act_mask on ts s'.binary) o.bin_output_msgs
      ∙ ap (records_of s.act_mask s.bin_output_msgs ts) f;
}
