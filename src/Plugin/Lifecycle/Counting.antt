-- ===== src/Plugin/Lifecycle/Counting.antt =====
-- Under artifact frames each writer that a run has opened is open or closed, once.
use wkbench.Base.{
  List, ◌∷◌, ltb, ◌==◌, one_if, occurrences, below-suc, total, total-insert_new, total-insert_old,
  total-remove_present, ℕ, suc, ◌+◌, ◌≤◌, false, Option, none, some, Result, ok, err, Text, text,
  text_eq, text_eq_iff, Dict, lookup, insert, remove, lookup-insert, lookup-remove, HasDistinctKeys,
  insert-HasDistinctKeys, remove-HasDistinctKeys, ◌≡◌, refl, sym, ap, ◌∙◌, arith, Bool-cases, inl,
  inr,
}
use wkbench.Units.Decimal.{name_at-injective}
use wkbench.Plugin.Metrics.{MetricSnapshot}
use wkbench.Plugin.Artifacts.{ArtifactChunk}
use wkbench.Plugin.Artifacts.Host.{
  HostArtifactWriter, RunArtifacts, ArtifactError, handle_of, open_with, write_with, close_with,
}
use wkbench.Plugin.Lifecycle.{Answer, RunHost, joined, answered}

-- The state of an environment, with the number of the writers it has opened, which are numbered
-- from 0 on in the order of their opening, and the numbers of the writers it has closed.
pub record Counted (S : Type 0) : Type 0 where
  pub opens : ℕ
  pub closed : List ℕ
  pub inner : S

unfoldable pub put : {A S : Type 0} → Counted S → A × S → A × Counted S
put c r = (r.0, record c { inner = r.1 })

unfoldable pub count_opened : {S E W : Type 0} → Counted S → Result E W → S → Counted S
count_opened c (ok w) s = record c { opens = c.opens + 1; inner = s }
count_opened c (err e) s = record c { inner = s }

-- The next writer gets its number.
unfoldable pub numbered : {E W : Type 0} → ℕ → Result E W → Result E (ℕ × W)
numbered n (ok w) = ok (n, w)
numbered n (err e) = err e

unfoldable pub counted_recorder :
    {F S : Type 0}
    → Option (MetricSnapshot F → S → S)
    → Option (MetricSnapshot F → Counted S → Counted S)
counted_recorder none = none
counted_recorder (some f) = some (λ m c. record c { inner = f m c.inner })

-- Whether an open artifact has the writer of a number
abbrev pub has_number : {Writer : Type 0} → ℕ → HostArtifactWriter (ℕ × Writer) → ℕ
has_number k w = one_if (k == w.writer.0)

-- Each writer that was opened is open or closed, once; each is open under its own handle.
pub record IsBalanced {Writer S : Type 0} (a : RunArtifacts (ℕ × Writer)) (c : Counted S)
    : Type 0 where
  pub counts :
      (k : ℕ) → one_if (ltb k c.opens) ≡ occurrences k c.closed + total (has_number k) a.writers
  pub distinct : HasDistinctKeys a.writers
  pub unused : (n : ℕ) → a.next ≤ n → lookup (handle_of (suc n)) a.writers ≡ none

-- Neither an open nor a close in between.
pub record IsQuiet {S : Type 0} (c c' : Counted S) : Type 0 where
  pub same_opens : c'.opens ≡ c.opens
  pub same_closes : c'.closed ≡ c.closed

pub quiet-IsBalanced :
    {Writer S : Type 0} (a : RunArtifacts (ℕ × Writer)) (c c' : Counted S)
    → IsQuiet c c'
    → IsBalanced a c
    → IsBalanced a c'
quiet-IsBalanced a c c' q b = record {
  counts = λ k.
      ap (λ n. one_if (ltb k n)) q.same_opens
      ∙ b.counts k
      ∙ ap (λ xs. occurrences k xs + total (has_number k) a.writers) (sym q.same_closes);
  distinct = b.distinct;
  unused = b.unused;
}

some≢none : {V : Type 0} {v : V} → some v ≡ none → ⊥
some≢none e = cc

absent_remove :
    {V : Type 0} (k j : Text) (m : Dict V) → lookup j m ≡ none → lookup j (remove k m) ≡ none
absent_remove k j m gone = lookup-remove k j m ∙ ground (arith, gone)

absent_insert :
    {V : Type 0} (j k : Text) (v : V) (m : Dict V)
    → text_eq j k ≡ false
    → lookup j m ≡ none
    → lookup j (insert k v m) ≡ none
absent_insert j k v m other gone = lookup-insert k j v m ∙ rw other gone

module _ {Any E F Writer S : Type 0} where
  -- Any environment, with its opens and closes counted.
  unfoldable pub counting : RunHost Any E F Writer S → RunHost Any E F (ℕ × Writer) (Counted S)
  unfolding put count_opened counted_recorder
  counting host = record {
    nil_value = host.nil_value;
    decode = host.decode;
    set_output = λ name v c. put c (host.set_output name v c.inner);
    div = host.div;
    metrics = record {
      recorder = counted_recorder host.metrics.recorder;
      emit_counter = λ name delta labels c. record c {
        inner = host.metrics.emit_counter name delta labels c.inner;
      };
    };
    artifact_env = record {
      open_artifact = λ name c.
          let r = host.artifact_env.open_artifact name c.inner in
          (numbered c.opens r.0, count_opened c r.0 r.1);
      write_to = λ w bytes c.
          let r = host.artifact_env.write_to w.1 bytes c.inner in
          (r.0, r.1, record c { inner = r.2 });
      close_writer = λ w c.
          let r = host.artifact_env.close_writer w.1 c.inner in
          (r.0, record c { closed = w.0 ∷ c.closed; inner = r.1 });
    };
    write_answer = λ answer c. put c (host.write_answer answer c.inner);
  }

  module _ (host : RunHost Any E F Writer S) where
    pub joined-IsBalanced :
        (e : ArtifactError E) (a : RunArtifacts (ℕ × Writer)) (r : Option E × Counted S)
        → IsBalanced a r.1
        → IsBalanced (joined (counting host) e a r).artifacts (joined (counting host) e a r).state
    unfolding joined
    joined-IsBalanced e a (none, c) b = b
    joined-IsBalanced e a (some d, c) b = b

    pub answered-IsBalanced :
        (a : RunArtifacts (ℕ × Writer)) (r : Option E × Counted S)
        → IsBalanced a r.1
        → IsBalanced (answered (counting host) a r).artifacts (answered (counting host) a r).state
    unfolding answered
    answered-IsBalanced a (none, c) b = b
    answered-IsBalanced a (some e, c) b = b

    pub written-IsBalanced :
        (answer : Answer E) (a : RunArtifacts (ℕ × Writer)) (c : Counted S)
        → IsBalanced a c
        → IsBalanced a ((counting host).write_answer answer c).1
    unfolding counting
    written-IsBalanced answer a c b = record {
      counts = b.counts;
      distinct = b.distinct;
      unused = b.unused;
    }

    pub open-IsBalanced :
        (name : Text) (a : RunArtifacts (ℕ × Writer)) (c : Counted S) (r : Result E Writer) (s : S)
        → IsBalanced a c
        → let o =
            open_with
              (counting host).artifact_env
              name
              a
              (numbered c.opens r, count_opened c r s) in
          IsBalanced o.artifacts o.state
    unfolding open_with count_opened numbered
    open-IsBalanced name a c (err e) s b = record {
      counts = b.counts;
      distinct = b.distinct;
      unused = b.unused;
    }
    open-IsBalanced name a c (ok w) s b =
        let new = b.unused a.next (omega arith) in
        record {
          counts = λ k. omega (
            arith,
            b.counts k,
            below-suc k c.opens,
            total-insert_new (has_number k) (handle_of (suc a.next)) _ a.writers new,
          );
          distinct = insert-HasDistinctKeys (handle_of (suc a.next)) _ a.writers b.distinct;
          unused = λ n above.
              elim (Bool-cases (text_eq (handle_of (suc n)) (handle_of (suc a.next)))) [
                | inl same ↦
                    let clash =
                      name_at-injective (text "artifact") (suc n) (suc a.next)
                        ((text_eq_iff (handle_of (suc n)) (handle_of (suc a.next))).0 same) in
                    absurd (omega (arith, clash, above))
                | inr other ↦
                    absent_insert (handle_of (suc n)) (handle_of (suc a.next)) _ a.writers other
                      (b.unused n (omega (arith, above)))
              ];
        }

    pub chunk-IsBalanced :
        (chunk : ArtifactChunk) (a : RunArtifacts (ℕ × Writer)) (c : Counted S)
        (w : Option (HostArtifactWriter (ℕ × Writer)))
        → lookup chunk.handle a.writers ≡ w
        → IsBalanced a c
        → let o = write_with (counting host).artifact_env chunk a c w in
          IsBalanced o.artifacts o.state
    unfolding write_with counting
    chunk-IsBalanced chunk a c none found b = b
    chunk-IsBalanced chunk a c (some w) found b = record {
      counts = λ k. omega (
        arith,
        b.counts k,
        total-insert_old (has_number k) chunk.handle
            (record w {
              size = w.size + (host.artifact_env.write_to w.writer.1 chunk.payload c.inner).0;
            })
            w a.writers found refl,
      );
      distinct = insert-HasDistinctKeys chunk.handle _ a.writers b.distinct;
      unused = λ n above. elim (Bool-cases (text_eq (handle_of (suc n)) chunk.handle)) [
        | inl same ↦ absurd (
            some≢none (
              sym found
              ∙ ap (λ k. lookup k a.writers)
                  (sym ((text_eq_iff (handle_of (suc n)) chunk.handle).0 same))
              ∙ b.unused n above))
        | inr other ↦
            absent_insert (handle_of (suc n)) chunk.handle _ a.writers other (b.unused n above)
      ];
    }

    pub close-IsBalanced :
        (handle : Text) (a : RunArtifacts (ℕ × Writer)) (c : Counted S)
        (w : Option (HostArtifactWriter (ℕ × Writer)))
        → lookup handle a.writers ≡ w
        → IsBalanced a c
        → let o = close_with (counting host).artifact_env handle a c w in
          IsBalanced o.artifacts o.state
    unfolding close_with counting
    close-IsBalanced handle a c none found b = b
    close-IsBalanced handle a c (some w) found b = record {
      counts = λ k. omega (
        arith,
        b.counts k,
        total-remove_present (has_number k) handle w a.writers b.distinct found,
      );
      distinct = remove-HasDistinctKeys handle a.writers b.distinct;
      unused = λ n above. absent_remove handle (handle_of (suc n)) a.writers (b.unused n above);
    }
