-- ===== src/Router/Selector/Eligible.antt =====
-- Who passes the filters of `Select`, without the code's tests.
use distributed_ml_inference.Prelude.{
  String, true, ◌≡◌, ◌≢◌, ◌↔◌, ◌≤◌, ◌==◌, eq_iff, List, [], ◌∷◌, inl, inr, arith, Bool-cases, Elem,
  there, Elem-cons, Elem-cons_of_eq, Elem-keep, Elem-of_Elem-keep, sym,
}
use distributed_ml_inference.Models.{Precision}
use distributed_ml_inference.Router.Registry.{Worker}
use distributed_ml_inference.Router.Selector.{
  precision_rank, supports, supports_model, is_eligible, eligible,
}

-- The worker has the model, and its precision is enough where the request names one.
pub record Serves (model_name : String) (preferred : Precision) (w : Worker) : Type 0 where
  pub has_model : Elem model_name w.supported_models
  pub precise : preferred ≢ "" → precision_rank preferred ≤ precision_rank w.max_precision

supports_of_Elem : (m : String) (ms : List String) → Elem m ms → supports ms m ≡ true
unfolding supports
supports_of_Elem m [] e = elim e [ ]
supports_of_Elem m (x ∷ ms) e = elim (Elem-cons e) [
  | inl same ↦ ground (arith, (eq_iff x m).1 (sym same))
  | inr later ↦ ground (arith, supports_of_Elem m ms later)
]

Elem-of_supports : (m : String) (ms : List String) → supports ms m ≡ true → Elem m ms
unfolding supports
Elem-of_supports m [] h = cc
Elem-of_supports m (x ∷ ms) h = elim (Bool-cases (x == m)) [
  | inl t ↦ Elem-cons_of_eq ms (sym ((eq_iff x m).0 t))
  | inr f ↦ there (Elem-of_supports m ms (rw f at h))
]

pub is_eligible_iff :
    (model_name : String) (preferred : Precision) (w : Worker)
    → (is_eligible model_name preferred w ≡ true) ↔ Serves model_name preferred w
unfolding is_eligible supports_model
is_eligible_iff model_name preferred w = (
  (λ h. record {
    has_model = Elem-of_supports model_name w.supported_models (ground arith);
    precise = λ named. ground (arith, eq_iff preferred "");
  }),
  (λ s. ground (
    arith,
    supports_of_Elem model_name w.supported_models s.has_model,
    eq_iff preferred "",
    s.precise,
  )),
)

pub Elem-eligible :
    (model_name : String) (preferred : Precision) (ws : List Worker) {w : Worker}
    → Elem w (eligible model_name preferred ws)
    → Elem w ws × Serves model_name preferred w
unfolding eligible
Elem-eligible model_name preferred ws {w} e =
    let (e', h) = Elem-of_Elem-keep (is_eligible model_name preferred) ws e in
    (e', (is_eligible_iff model_name preferred w).0 h)

pub Elem-eligible_of_Serves :
    (model_name : String) (preferred : Precision) (ws : List Worker) {w : Worker}
    → Elem w ws
    → Serves model_name preferred w
    → Elem w (eligible model_name preferred ws)
unfolding eligible
Elem-eligible_of_Serves model_name preferred ws {w} e s =
    Elem-keep (is_eligible model_name preferred) ws ((is_eligible_iff model_name preferred w).1 s) e
