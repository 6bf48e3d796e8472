-- ===== src/Onboarding/Templates.antt =====
-- src/application/onboarding/industry_templates.py
use schedule_appointments.Base.{ℕ, List, [], ◌∷◌, if◌then◌else◌}
use schedule_appointments.Base.Text.{Text, codes, text_eq}

pub record ServiceTemplate : Type 0 where
  pub name : Text
  pub description : Text
  pub duration_minutes : ℕ

pub record Industry : Type 0 where
  pub slug : Text
  pub templates : List ServiceTemplate

-- `_TEMPLATES`
abbrev industries : List Industry
industries =
    record {
      slug = codes "salones-y-peluquerias";
      templates =
          record {
            name = codes "Corte de cabello";
            description = codes "Corte básico para dama o caballero";
            duration_minutes = 30;
          }
          ∷ record {
            name = codes "Coloración";
            description = codes "Tinte completo con productos profesionales";
            duration_minutes = 90;
          }
          ∷ record {
            name = codes "Tratamiento capilar";
            description = codes "Hidratación o keratina";
            duration_minutes = 60;
          }
          ∷ record {
            name = codes "Manicure";
            description = codes "Limpieza y esmaltado de uñas";
            duration_minutes = 45;
          }
          ∷ record {
            name = codes "Pedicure";
            description = codes "Cuidado completo de pies";
            duration_minutes = 45;
          }
          ∷ [];
    }
    ∷ record {
      slug = codes "veterinarias";
      templates =
          record {
            name = codes "Consulta general";
            description = codes "Revisión clínica completa";
            duration_minutes = 30;
          }
          ∷ record {
            name = codes "Vacunación";
            description = codes "Aplicación de vacuna según esquema";
            duration_minutes = 15;
          }
          ∷ record {
            name = codes "Baño y peluquería";
            description = codes "Baño, secado y corte de pelo";
            duration_minutes = 60;
          }
          ∷ record {
            name = codes "Cirugía programada";
            description = codes "Procedimiento quirúrgico electivo";
            duration_minutes = 120;
          }
          ∷ [];
    }
    ∷ record {
      slug = codes "mecanicos";
      templates =
          record {
            name = codes "Cambio de aceite";
            description = codes "Cambio de aceite y filtro";
            duration_minutes = 30;
          }
          ∷ record {
            name = codes "Diagnóstico general";
            description = codes "Revisión completa del vehículo";
            duration_minutes = 45;
          }
          ∷ record {
            name = codes "Alineación y balanceo";
            description = codes "Alineación de dirección y balanceo de ruedas";
            duration_minutes = 60;
          }
          ∷ record {
            name = codes "Servicio de frenos";
            description = codes "Revisión y cambio de pastillas o discos";
            duration_minutes = 90;
          }
          ∷ record {
            name = codes "Mantenimiento preventivo";
            description = codes "Revisión completa según kilometraje";
            duration_minutes = 120;
          }
          ∷ [];
    }
    ∷ record {
      slug = codes "clinicas";
      templates =
          record {
            name = codes "Consulta médica";
            description = codes "Consulta con médico general o especialista";
            duration_minutes = 30;
          }
          ∷ record {
            name = codes "Consulta de seguimiento";
            description = codes "Control de tratamiento o evolución";
            duration_minutes = 20;
          }
          ∷ record {
            name = codes "Revisión preventiva";
            description = codes "Chequeo anual de salud";
            duration_minutes = 45;
          }
          ∷ record {
            name = codes "Procedimiento menor";
            description = codes "Intervención ambulatoria simple";
            duration_minutes = 60;
          }
          ∷ [];
    }
    ∷ record {
      slug = codes "gimnasios";
      templates =
          record {
            name = codes "Clase grupal";
            description = codes "Clase colectiva de fitness o baile";
            duration_minutes = 60;
          }
          ∷ record {
            name = codes "Sesión personal";
            description = codes "Entrenamiento one-to-one con instructor";
            duration_minutes = 60;
          }
          ∷ record {
            name = codes "Evaluación física";
            description = codes "Medición de composición corporal y fitness";
            duration_minutes = 45;
          }
          ∷ record {
            name = codes "Yoga";
            description = codes "Clase de yoga o meditación guiada";
            duration_minutes = 60;
          }
          ∷ [];
    }
    ∷ []

-- `_DEFAULT`
abbrev default_templates : List ServiceTemplate
default_templates =
    record {
      name = codes "Consulta / Servicio";
      description = codes "Servicio principal del negocio";
      duration_minutes = 30;
    }
    ∷ []

abbrev lookup : Text → List Industry → List ServiceTemplate
lookup industry [] = default_templates
lookup industry (i ∷ is) = if text_eq i.slug industry then i.templates else lookup industry is

unfoldable pub get_templates : Text → List ServiceTemplate
get_templates industry = lookup industry industries
