-- ===== src/Lca/SpendCategory.antt =====
-- backend/src/modules/lca/types.ts: `spendCategories`.
pub data SpendCategory : Type 0 where
  rice wheat_barley_and_the_like potatoes_and_sweet_potatoes pulses vegetables : SpendCategory
  fruits sugar_crops crops_for_beverages miscellaneous_edible_crops : SpendCategory
  feed_and_forage_crops seeds_and_seedlings flowers_and_plants : SpendCategory
  miscellaneous_inedible_crops dairy_cattle_farming beef_cattle hogs hen_eggs : SpendCategory
  chickens miscellaneous_livestock agricultural_services silviculture logs : SpendCategory
  special_forest_products_including_hunting marine_fishery marine_aquaculture : SpendCategory
  inland_water_fishery_and_inland_water_aquaculture : SpendCategory
  coal_mining_crude_petroleum_and_natural_gas gravel_and_quarrying : SpendCategory
  miscellaneous_ores meat dairy_farm_products miscellaneous_livestock_products : SpendCategory
  frozen_fish_and_shellfish salted_dried_or_smoked_seafood : SpendCategory
  bottled_or_canned_seafood fish_paste miscellaneous_processed_seafood : SpendCategory
  grain_milling flour_and_miscellaneous_grain_milled_products noodles bread : SpendCategory
  confectionery preserved_agricultural_foodstuffs sugar starch : SpendCategory
  dextrose_syrup_and_isomerized_sugar animal_oil_and_fats_vegetable_oil_and_meal : SpendCategory
  condiments_and_seasonings prepared_frozen_foods dishes_sushi_and_lunch_boxes : SpendCategory
  retort_foods miscellaneous_foods refined_sake malt_liquors whiskey_and_brandy : SpendCategory
  miscellaneous_liquors tea_and_roasted_coffee soft_drinks manufactured_ice feeds : SpendCategory
  organic_fertilizers_nec tobacco fiber_yarns : SpendCategory
  cotton_and_staple_fiber_fabrics_including_fabrics_of_synthetic_spun_fibers : SpendCategory
  silk_and_artificial_silk_fabrics_including_fabrics_of_synthetic_filament_fibers : SpendCategory
  miscellaneous_fabrics knitting_fabrics : SpendCategory
  yarn_and_fabric_dyeing_and_finishing_processing_on_commission_only : SpendCategory
  miscellaneous_fabricated_textile_products woven_fabric_apparel knitted_apparel : SpendCategory
  miscellaneous_wearing_apparel_and_clothing_accessories bedding : SpendCategory
  carpets_and_floor_mats miscellaneous_ready_made_textile_products timber : SpendCategory
  plywood_glued_laminated_timber wooden_chips miscellaneous_wooden_products : SpendCategory
  wooden_furniture metallic_furniture wooden_fixtures : SpendCategory
  miscellaneous_furniture_and_fixtures pulp paper paperboard corrugated_cardboard : SpendCategory
  coated_paper_and_building_construction_paper corrugated_card_board_boxes : SpendCategory
  miscellaneous_paper_containers paper_textile_for_medical_use : SpendCategory
  miscellaneous_pulp_paper_and_processed_paper_products : SpendCategory
  printing_plate_making_and_book_binding chemical_fertilizer : SpendCategory
  industrial_soda_chemicals inorganic_pigment compressed_gas_and_liquefied_gas salt : SpendCategory
  miscellaneous_industrial_inorganic_chemicals petrochemical_basic_products : SpendCategory
  petrochemical_aromatic_products_except_synthetic_resin aliphatic_intermediates : SpendCategory
  cyclic_intermediates_synthetic_dyes_and_organic_pigments synthetic_rubber : SpendCategory
  methane_derivatives plasticizers miscellaneous_industrial_organic_chemicals : SpendCategory
  thermo_setting_resins thermoplastics_resins high_function_resins : SpendCategory
  miscellaneous_synthetic_resins chemical_fibers medicines : SpendCategory
  oil_and_fat_products_and_surface_active_agents : SpendCategory
  cosmetics_toilet_preparations_and_dentifrices paint_and_varnishes printing_ink : SpendCategory
  agricultural_chemicals gelatin_and_adhesives photographic_sensitive_materials : SpendCategory
  miscellaneous_final_chemical_products : SpendCategory
  petroleum_refinery_products_including_greases coal_products paving_materials : SpendCategory
  plastic_products tires_and_inner_tubes miscellaneous_rubber_products : SpendCategory
  leather_footwear : SpendCategory
  leather_tanning_leather_products_and_fur_skins_except_leather_footwear : SpendCategory
  sheet_glass_and_safety_glass glass_fiber_and_glass_fiber_products_nec : SpendCategory
  miscellaneous_glass_products cement ready_mixed_concrete cement_products : SpendCategory
  pottery_china_and_earthenware clay_refractories : SpendCategory
  miscellaneous_structural_clay_products carbon_and_graphite_products : SpendCategory
  abrasive_and_its_products miscellaneous_ceramic_stone_and_clay_products pig_iron : SpendCategory
  ferro_alloys crude_steel_converters crude_steel_electric_furnaces scrap_iron : SpendCategory
  hot_rolled_steel steel_pipes_and_tubes cold_finished_steel coated_steel : SpendCategory
  cast_and_forged_steel cast_iron_pipes_and_tubes cast_and_forged_materials_iron : SpendCategory
  iron_and_steel_shearing_and_slitting miscellaneous_iron_or_steel_products copper : SpendCategory
  lead_and_zinc_including_regenerated_lead aluminum_including_regenerated_aluminum : SpendCategory
  miscellaneous_non_ferrous_metals non_ferrous_metal_scrap : SpendCategory
  electric_wires_and_cables optical_fiber_cables : SpendCategory
  rolled_and_drawn_copper_and_copper_alloys rolled_and_drawn_aluminum : SpendCategory
  non_ferrous_metal_castings_and_forgings nuclear_fuels : SpendCategory
  miscellaneous_non_ferrous_metal_products : SpendCategory
  fabricated_construction_use_metal_products : SpendCategory
  fabricated_architectural_metal_products : SpendCategory
  gas_and_oil_appliances_heating_and_cooking_apparatus : SpendCategory
  bolts_nuts_rivets_and_springs metal_containers_fabricated_plate_and_sheet_metal : SpendCategory
  plumbing_accessories_powder_metallurgy_products_and_tools : SpendCategory
  miscellaneous_metal_products boilers turbines engines pumps_and_compressors : SpendCategory
  conveyors refrigerators_and_air_conditioning_apparatus bearings : SpendCategory
  miscellaneous_general_purpose_machinery machinery_for_agricultural_use : SpendCategory
  machinery_and_equipment_for_construction_and_mining textile_machinery : SpendCategory
  daily_lives_industry_machinery chemical_machinery : SpendCategory
  casting_equipment_and_plastic_processing_machinery metal_machine_tools : SpendCategory
  metal_processing_machinery machinists_precision_tools : SpendCategory
  semiconductor_making_equipment metal_molds vacuum_equipment_and_vacuum_component : SpendCategory
  robots miscellaneous_production_machinery copy_machine : SpendCategory
  miscellaneous_office_machines service_industry_and_amusement_machines : SpendCategory
  measuring_instruments medical_instruments optical_instruments_and_lenses ordnance : SpendCategory
  semiconductor_devices integrated_circuits liquid_crystal_panel : SpendCategory
  flat_panel_and_electron_tubes storage_media electric_circuit : SpendCategory
  miscellaneous_electronic_components rotating_electrical_equipment : SpendCategory
  transformers_and_reactors relay_switches_and_switchboards : SpendCategory
  wiring_devices_and_supplies electrical_equipment_for_internal_combustion_engines : SpendCategory
  miscellaneous_electrical_devices_and_parts household_air_conditioners : SpendCategory
  household_electric_appliances_except_air_conditioners : SpendCategory
  applied_electronic_equipment electric_measuring_instruments electric_bulbs : SpendCategory
  electric_lighting_fixtures_and_apparatus batteries wired_communication_equipment : SpendCategory
  mobile_phone radio_communication_equipment_except_mobile_phone : SpendCategory
  radio_and_television_sets miscellaneous_communication_equipment : SpendCategory
  video_equipment_and_digital_camera electric_audio_equipment personal_computers : SpendCategory
  electronic_computing_equipment_except_personal_computers : SpendCategory
  electronic_computing_equipment_accessory_equipment : SpendCategory
  passenger_motor_cars_hybrid_cars passenger_motor_cars_except_hybrid_cars : SpendCategory
  trucks_buses_and_miscellaneous_cars two_wheel_motor_vehicles : SpendCategory
  internal_combustion_engines_for_motor_vehicles : SpendCategory
  motor_vehicle_parts_and_accessories steel_ships : SpendCategory
  miscellaneous_ships_except_steel_ships internal_combustion_engines_for_vessels : SpendCategory
  repair_of_ships rolling_stock repair_of_rolling_stock aircrafts : SpendCategory
  repair_of_aircrafts bicycles miscellaneous_transport_equipment toys_and_games : SpendCategory
  sporting_and_athletic_goods jewelry_and_adornments watches_and_clocks : SpendCategory
  musical_instruments stationery tatami_straw_matting_and_straw_products : SpendCategory
  audio_and_video_records_other_information_recording_media : SpendCategory
  miscellaneous_manufacturing_products reuse_and_recycling : SpendCategory
  residential_construction_wooden residential_construction_non_wooden : SpendCategory
  non_residential_construction_wooden non_residential_construction_non_wooden : SpendCategory
  repair_of_construction public_construction_of_roads : SpendCategory
  public_construction_of_rivers_drainages_and_miscellaneous_public_construction : SpendCategory
  agricultural_public_construction railway_construction : SpendCategory
  electric_power_facilities_construction telecommunication_facilities_construction : SpendCategory
  miscellaneous_civil_engineering_and_construction electricity gas_supply : SpendCategory
  steam_and_hot_water_supply water_supply industrial_water_supply sewage_disposal : SpendCategory
  waste_management_services_public_corporation waste_management_services : SpendCategory
  wholesale_trade retail_trade financial_service life_insurance non_life_insurance : SpendCategory
  real_estate_agencies_and_managers real_estate_rental_service house_rent : SpendCategory
  house_rent_imputed_house_rent railway_transport_passengers : SpendCategory
  railway_transport_freight bus_transport_service hired_car_and_taxi_transport : SpendCategory
  road_freight_transport_except_self_transport self_transport_passengers : SpendCategory
  self_transport_freight international_shipping coastal_and_inland_water_transport : SpendCategory
  harbor_transport_service air_transport consigned_freight_forwarding : SpendCategory
  storage_facility_service packing_service facility_service_for_road_transport : SpendCategory
  port_and_water_traffic_control_public_corporation port_and_water_traffic_control : SpendCategory
  services_relating_to_water_transport : SpendCategory
  airport_and_air_traffic_control_public_corporation : SpendCategory
  airport_and_air_traffic_control services_relating_to_air_transport : SpendCategory
  travel_agency_and_miscellaneous_services_relating_to_transport : SpendCategory
  postal_services_and_mail_delivery fixed_telecommunications : SpendCategory
  mobile_telecommunications services_relating_to_telecommunications : SpendCategory
  public_broadcasting private_broadcasting cable_broadcasting information_services : SpendCategory
  internet_based_services : SpendCategory
  video_picture_sound_information_character_information_production_except_newspaper_or_publication :
      SpendCategory
  newspaper publication public_administration_central_government : SpendCategory
  public_administration_local_government school_education_public_institution : SpendCategory
  school_education_npi school_lunch_public_institution school_lunch_npi : SpendCategory
  social_education_public_institution social_education_npi : SpendCategory
  miscellaneous_educational_and_training_institutions_public_institution : SpendCategory
  miscellaneous_educational_and_training_institutions : SpendCategory
  research_institutes_for_natural_science_public_institution : SpendCategory
  research_institutes_for_cultural_and_social_science_public_institution : SpendCategory
  research_institutes_for_natural_sciences_npi : SpendCategory
  research_institutes_for_cultural_and_social_science_npi : SpendCategory
  research_institutes_for_natural_sciences : SpendCategory
  research_institutes_for_cultural_and_social_science : SpendCategory
  research_and_development_intra_enterprise medical_service_general_hospitals : SpendCategory
  medical_service_clinics_of_medical_practitioners medical_service_dentistry : SpendCategory
  medical_service_pharmacies medical_service_miscellaneous_medical_service : SpendCategory
  health_and_hygiene_public_institution health_and_hygiene social_insurance : SpendCategory
  social_welfare_public_institution social_welfare_npi social_welfare nursery : SpendCategory
  nursing_care_facility_services nursing_care_except_facility_services : SpendCategory
  membership_based_business_associations : SpendCategory
  private_non_profit_institutions_serving_households_nec : SpendCategory
  goods_rental_and_leasing_except_car_rental car_rental_and_leasing : SpendCategory
  advertising_services motor_vehicle_maintenance_services machine_repair_services : SpendCategory
  judicial_financial_and_accounting_services : SpendCategory
  civil_engineering_and_construction_services worker_dispatching_services : SpendCategory
  building_maintenance_services guard_services slaughterhouse_public_corporation : SpendCategory
  slaughterhouse miscellaneous_business_services accommodations : SpendCategory
  eating_and_drinking_places food_take_out_and_delivery_services laundries : SpendCategory
  barber_shops hair_dressing_and_beauty_salon bathhouses : SpendCategory
  miscellaneous_laundry_beauty_and_bath_service cinemas : SpendCategory
  performances_except_movie_theaters_theatrical_comranies : SpendCategory
  stadiums_and_companies_of_bicycle_horse_motorcar_and_motorboat_races : SpendCategory
  sport_facility_service_public_gardens_and_amusement_parks : SpendCategory
  amusement_and_recreation_facilities_and_services veterinary_service : SpendCategory
  photographic_studios ceremonial_occasions : SpendCategory
  supplementary_tutorial_schools_instruction_services_for_arts_culture_and_technical_skills :
      SpendCategory
  miscellaneous_repairs_nec miscellaneous_personal_services office_supplies : SpendCategory
  activities_not_elsewhere_classified : SpendCategory
