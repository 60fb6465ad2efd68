-- ===== src/Cgi/Table/Laws.antt =====
-- The table of the functions and its names.
use cfg_mgr.Base.{ℕ, ◌≡◌, refl, some, All}
use cfg_mgr.Base.Text.{codes, strstr, starts_with}
use cfg_mgr.Cgi.Table.{form_method_table, look_up_in, form_method_look_up}

-- Every entry of the table is found under its own name: no entry in front of it has a name that
-- stands in it.
pub form_method_look_up_own :
    (temp : ℕ)
    → All (λ e. form_method_look_up temp (codes e.form_name) ≡ some e) (form_method_table temp)
unfolding form_method_look_up form_method_table look_up_in strstr starts_with
form_method_look_up_own temp = (
  refl,
  (
    refl,
    (
      refl,
      (
        refl,
        (
          refl,
          (
            refl,
            (
              refl,
              (
                refl,
                (
                  refl,
                  (
                    refl,
                    (
                      refl,
                      (
                        refl,
                        (
                          refl,
                          (
                            refl,
                            (
                              refl,
                              (
                                refl,
                                (
                                  refl,
                                  (
                                    refl,
                                    (
                                      refl,
                                      (refl, (refl, (refl, (refl, (refl, (refl, (refl, tt))))))),
                                    ),
                                  ),
                                ),
                              ),
                            ),
                          ),
                        ),
                      ),
                    ),
                  ),
                ),
              ),
            ),
          ),
        ),
      ),
    ),
  ),
)
