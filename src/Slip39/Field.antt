-- ===== src/Slip39/Field.antt =====
-- The algebra that Lagrange interpolation needs: a field in which every element is its own negative.
use piso_chain.Base.{◌≡◌, ◌≢◌, sym, ◌∙◌}

pub record Field : Type 1 where
  pub F : Type 0
  pub zero : F
  pub one : F
  pub add : F → F → F
  pub mul : F → F → F
  pub div : F → F → F
  pub add_comm : (a b : F) → add a b ≡ add b a
  pub add_assoc : (a b c : F) → add (add a b) c ≡ add a (add b c)
  pub zero-add : (a : F) → add zero a ≡ a
  pub add_self : (a : F) → add a a ≡ zero
  pub mul_comm : (a b : F) → mul a b ≡ mul b a
  pub mul_assoc : (a b c : F) → mul (mul a b) c ≡ mul a (mul b c)
  pub one-mul : (a : F) → mul one a ≡ a
  pub zero-mul : (a : F) → mul zero a ≡ zero
  pub mul-add : (a b c : F) → mul a (add b c) ≡ add (mul a b) (mul a c)
  pub div-mul : (a b : F) → b ≢ zero → mul (div a b) b ≡ a

module _ (k : Field) where
  open k use {
    F, zero, one, add, mul, div, add_comm, add_assoc, zero-add, add_self, mul_comm, mul_assoc,
    one-mul, zero-mul, mul-add, div-mul,
  }

  pub add-zero : (a : F) → add a zero ≡ a
  add-zero a = add_comm a zero ∙ zero-add a

  pub mul-one : (a : F) → mul a one ≡ a
  mul-one a = mul_comm a one ∙ one-mul a

  pub mul-zero : (a : F) → mul a zero ≡ zero
  mul-zero a = mul_comm a zero ∙ zero-mul a

  pub add-mul : (a b c : F) → mul (add a b) c ≡ add (mul a c) (mul b c)
  add-mul a b c = rw (mul_comm (add a b) c) (mul-add c a b ∙ rw (mul_comm c a, mul_comm c b))

  pub add_add_self : (a b : F) → add a (add a b) ≡ b
  add_add_self a b = sym (add_assoc a a b) ∙ rw (add_self a) (zero-add b)

  -- (a + b) + (c + d) = (a + c) + (b + d)
  pub add_swap : (a b c d : F) → add (add a b) (add c d) ≡ add (add a c) (add b d)
  add_swap a b c d =
      add_assoc a b (add c d)
      ∙ rw (← add_assoc b c d)
          (rw (add_comm b c) (rw (add_assoc c b d) (sym (add_assoc a c (add b d)))))

  -- a (b c) = b (a c)
  pub mul_left_comm : (a b c : F) → mul a (mul b c) ≡ mul b (mul a c)
  mul_left_comm a b c = sym (mul_assoc a b c) ∙ rw (mul_comm a b) (mul_assoc b a c)

  pub mul_swap : (a b c d : F) → mul (mul a b) (mul c d) ≡ mul (mul a c) (mul b d)
  mul_swap a b c d =
      mul_assoc a b (mul c d) ∙ rw (mul_left_comm b c d) (sym (mul_assoc a c (mul b d)))

  pub eq_of_add-eq-zero : (a b : F) → add a b ≡ zero → a ≡ b
  eq_of_add-eq-zero a b h = sym (add-zero a) ∙ rw (← h) (add_add_self a b)

  pub add_ne_zero : (a b : F) → a ≢ b → add a b ≢ zero
  add_ne_zero a b ne h = ne (eq_of_add-eq-zero a b h)

  pub mul_cancel : (a b c : F) → c ≢ zero → mul a c ≡ mul b c → a ≡ b
  mul_cancel a b c ne h = step a ∙ rw h (sym (step b))
    where
      step : (x : F) → x ≡ mul (mul x c) (div one c)
      step x = sym (
          mul_assoc x c (div one c)
          ∙ rw (mul_comm c (div one c)) (rw (div-mul one c ne) (mul-one x)))

  -- a / b * c / d = (a c) / (b d)
  pub div-mul-div :
      (a b c d : F)
      → b ≢ zero
      → d ≢ zero
      → mul b d ≢ zero
      → mul (div a b) (div c d) ≡ div (mul a c) (mul b d)
  div-mul-div a b c d nb nd nbd =
      mul_cancel (mul (div a b) (div c d)) (div (mul a c) (mul b d)) (mul b d) nbd (
        mul_swap (div a b) (div c d) b d
        ∙ rw (div-mul a b nb, div-mul c d nd) (sym (div-mul (mul a c) (mul b d) nbd)))

  pub mul_ne_zero : (a b : F) → a ≢ zero → b ≢ zero → mul a b ≢ zero
  mul_ne_zero a b na nb h = na (mul_cancel a zero b nb (h ∙ sym (zero-mul b)))
