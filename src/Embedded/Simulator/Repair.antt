-- ===== src/Embedded/Simulator/Repair.antt =====
-- What a patch of the debug agent repairs, by the checks of the simulator.
use networkops_ai_agent.Base.{
  String, occurs_in, ◌≡◌, false, true, ◌+◌, ◌<>◌, ap, ◌||◌, refl, starts_with, count_char, arith,
  Bool-cases, inl, inr, ◌∙◌, ℕ, repeat_text, ap₂, nat_beq, leb, ◌-◌, nat_eq, string_eq,
}
use networkops_ai_agent.Embedded.Debug.{
  has_entry_point, opened, closed, add_entry_point, close_braces, patched_source, drop_error_lines,
}
use networkops_ai_agent.Embedded.Models.{Framework, state_eq, category_eq}
use networkops_ai_agent.Embedded.Simulator.{compile_firmware, compile_errors_of}
use networkops_ai_agent.Embedded.Simulator.Patching.{
  occurs_in-append, count-append, occurs_in-after, occurs_in-repeat, count-repeat_opened,
  count-repeat_closed,
}

abbrev entry_stub : String
entry_stub = "int main(void) { return 0; }\n"

-- The first step keeps the text free of `#error`, has an entry point and is balanced as before.
record Prepared (source prepared : String) : Type 0 where
  clean : occurs_in "#error" prepared ≡ false
  entered : has_entry_point prepared ≡ true
  balance : opened prepared + closed source ≡ opened source + closed prepared

stub-entered : (source : String) → has_entry_point (entry_stub <> source) ≡ true
unfolding has_entry_point
stub-entered source =
    ap (λ b. b || occurs_in "void app_main" (entry_stub <> source))
      (occurs_in-append "int main" entry_stub source refl (unfold occurs_in starts_with in refl))

stub-balance :
    (source : String)
    → opened (entry_stub <> source) + closed source ≡ opened source + closed (entry_stub <> source)
stub-balance source =
    let once : count_char "{" entry_stub ≡ 1 = unfold count_char in refl in
    let also : count_char "}" entry_stub ≡ 1 = unfold count_char in refl in
    omega
      (arith, count-append "{" entry_stub source, count-append "}" entry_stub source, once, also)

add_entry_point-Prepared :
    (source : String) → occurs_in "#error" source ≡ false → Prepared source (add_entry_point source)
unfolding add_entry_point
add_entry_point-Prepared source h = elim (Bool-cases (has_entry_point source)) [
  | inl e ↦ rw e (record { clean = h; entered = e; balance = omega arith })
  | inr e ↦ rw e (record {
    clean = occurs_in-after "#" "error" entry_stub source (unfold count_char in refl) ∙ h;
    entered = stub-entered source;
    balance = stub-balance source;
  })
]

braces-Prepared :
    (source prepared : String) (n : ℕ)
    → Prepared source prepared
    → (occurs_in "#error" (prepared <> repeat_text "}" n) ≡ false)
      × (has_entry_point (prepared <> repeat_text "}" n) ≡ true)
      × (opened (prepared <> repeat_text "}" n) ≡ opened prepared)
      × (closed (prepared <> repeat_text "}" n) ≡ closed prepared + n)
unfolding has_entry_point
braces-Prepared source prepared n g = (
  occurs_in-repeat "#error" prepared n (unfold count_char in refl) refl ∙ g.clean,
  ap₂ (λ a b. a || b) (occurs_in-repeat "int main" prepared n (unfold count_char in refl) refl)
        (occurs_in-repeat "void app_main" prepared n (unfold count_char in refl) refl)
      ∙ g.entered,
  rw (count-append "{" prepared (repeat_text "}" n), count-repeat_opened n) (omega arith),
  rw (count-append "}" prepared (repeat_text "}" n), count-repeat_closed n) refl,
)

-- A text with an entry point and no `#error` compiles exactly when its braces are balanced.
compiles_when_balanced :
    (sha256 : String → String) (framework : Framework) (source : String)
    → occurs_in "#error" source ≡ false
    → has_entry_point source ≡ true
    → (compile_firmware sha256 source framework).success ≡ nat_beq (opened source) (closed source)
unfolding compile_firmware compile_errors_of
compiles_when_balanced sha256 framework source clean entered = rw (clean, entered) (ground arith)

close_braces-compiles :
    (sha256 : String → String) (framework : Framework) (source prepared : String)
    → Prepared source prepared
    → (compile_firmware sha256 (close_braces prepared) framework).success
      ≡ leb (closed source) (opened source)
unfolding close_braces
close_braces-compiles sha256 framework source prepared g =
    elim (Bool-cases (nat_beq (opened prepared) (closed prepared))) [
      | inl e ↦ rw e (
          compiles_when_balanced sha256 framework prepared g.clean g.entered
          ∙ ground (arith, g.balance, e))
      | inr e ↦
          let (clean, entered, opens, closes) =
            braces-Prepared source prepared (opened prepared - closed prepared) g in
          rw e (
            compiles_when_balanced sha256 framework _ clean entered
            ∙ ground (arith, g.balance, e, opens, closes))
    ]

-- For a source without `#error` directives, the patch of the debug agent compiles exactly when
-- the source closes no more braces than it opens.
pub patched_source-compiles :
    (sha256 : String → String) (framework : Framework) (source : String)
    → occurs_in "#error" source ≡ false
    → (compile_firmware sha256 (patched_source source) framework).success
      ≡ leb (closed source) (opened source)
unfolding patched_source drop_error_lines
patched_source-compiles sha256 framework source h =
    let g = add_entry_point-Prepared source h in
    rw g.clean (close_braces-compiles sha256 framework source (add_entry_point source) g)
