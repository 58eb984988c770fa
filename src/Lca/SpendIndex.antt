-- ===== src/Lca/SpendIndex.antt =====
-- backend/src/modules/lca/types.ts: the order of `spendCategories`.
use personal_carbon_footprin.Prelude.{ℕ}
use personal_carbon_footprin.Lca.SpendCategory.{SpendCategory}

-- The place of a category in the list, by which categories are told apart.
unfoldable pub spend_index : SpendCategory → ℕ
spend_index SpendCategory.rice = 0
spend_index SpendCategory.wheat_barley_and_the_like = 1
spend_index SpendCategory.potatoes_and_sweet_potatoes = 2
spend_index SpendCategory.pulses = 3
spend_index SpendCategory.vegetables = 4
spend_index SpendCategory.fruits = 5
spend_index SpendCategory.sugar_crops = 6
spend_index SpendCategory.crops_for_beverages = 7
spend_index SpendCategory.miscellaneous_edible_crops = 8
spend_index SpendCategory.feed_and_forage_crops = 9
spend_index SpendCategory.seeds_and_seedlings = 10
spend_index SpendCategory.flowers_and_plants = 11
spend_index SpendCategory.miscellaneous_inedible_crops = 12
spend_index SpendCategory.dairy_cattle_farming = 13
spend_index SpendCategory.beef_cattle = 14
spend_index SpendCategory.hogs = 15
spend_index SpendCategory.hen_eggs = 16
spend_index SpendCategory.chickens = 17
spend_index SpendCategory.miscellaneous_livestock = 18
spend_index SpendCategory.agricultural_services = 19
spend_index SpendCategory.silviculture = 20
spend_index SpendCategory.logs = 21
spend_index SpendCategory.special_forest_products_including_hunting = 22
spend_index SpendCategory.marine_fishery = 23
spend_index SpendCategory.marine_aquaculture = 24
spend_index SpendCategory.inland_water_fishery_and_inland_water_aquaculture = 25
spend_index SpendCategory.coal_mining_crude_petroleum_and_natural_gas = 26
spend_index SpendCategory.gravel_and_quarrying = 27
spend_index SpendCategory.miscellaneous_ores = 28
spend_index SpendCategory.meat = 29
spend_index SpendCategory.dairy_farm_products = 30
spend_index SpendCategory.miscellaneous_livestock_products = 31
spend_index SpendCategory.frozen_fish_and_shellfish = 32
spend_index SpendCategory.salted_dried_or_smoked_seafood = 33
spend_index SpendCategory.bottled_or_canned_seafood = 34
spend_index SpendCategory.fish_paste = 35
spend_index SpendCategory.miscellaneous_processed_seafood = 36
spend_index SpendCategory.grain_milling = 37
spend_index SpendCategory.flour_and_miscellaneous_grain_milled_products = 38
spend_index SpendCategory.noodles = 39
spend_index SpendCategory.bread = 40
spend_index SpendCategory.confectionery = 41
spend_index SpendCategory.preserved_agricultural_foodstuffs = 42
spend_index SpendCategory.sugar = 43
spend_index SpendCategory.starch = 44
spend_index SpendCategory.dextrose_syrup_and_isomerized_sugar = 45
spend_index SpendCategory.animal_oil_and_fats_vegetable_oil_and_meal = 46
spend_index SpendCategory.condiments_and_seasonings = 47
spend_index SpendCategory.prepared_frozen_foods = 48
spend_index SpendCategory.dishes_sushi_and_lunch_boxes = 49
spend_index SpendCategory.retort_foods = 50
spend_index SpendCategory.miscellaneous_foods = 51
spend_index SpendCategory.refined_sake = 52
spend_index SpendCategory.malt_liquors = 53
spend_index SpendCategory.whiskey_and_brandy = 54
spend_index SpendCategory.miscellaneous_liquors = 55
spend_index SpendCategory.tea_and_roasted_coffee = 56
spend_index SpendCategory.soft_drinks = 57
spend_index SpendCategory.manufactured_ice = 58
spend_index SpendCategory.feeds = 59
spend_index SpendCategory.organic_fertilizers_nec = 60
spend_index SpendCategory.tobacco = 61
spend_index SpendCategory.fiber_yarns = 62
spend_index
      SpendCategory.cotton_and_staple_fiber_fabrics_including_fabrics_of_synthetic_spun_fibers =
    63
spend_index
      SpendCategory.silk_and_artificial_silk_fabrics_including_fabrics_of_synthetic_filament_fibers =
    64
spend_index SpendCategory.miscellaneous_fabrics = 65
spend_index SpendCategory.knitting_fabrics = 66
spend_index SpendCategory.yarn_and_fabric_dyeing_and_finishing_processing_on_commission_only = 67
spend_index SpendCategory.miscellaneous_fabricated_textile_products = 68
spend_index SpendCategory.woven_fabric_apparel = 69
spend_index SpendCategory.knitted_apparel = 70
spend_index SpendCategory.miscellaneous_wearing_apparel_and_clothing_accessories = 71
spend_index SpendCategory.bedding = 72
spend_index SpendCategory.carpets_and_floor_mats = 73
spend_index SpendCategory.miscellaneous_ready_made_textile_products = 74
spend_index SpendCategory.timber = 75
spend_index SpendCategory.plywood_glued_laminated_timber = 76
spend_index SpendCategory.wooden_chips = 77
spend_index SpendCategory.miscellaneous_wooden_products = 78
spend_index SpendCategory.wooden_furniture = 79
spend_index SpendCategory.metallic_furniture = 80
spend_index SpendCategory.wooden_fixtures = 81
spend_index SpendCategory.miscellaneous_furniture_and_fixtures = 82
spend_index SpendCategory.pulp = 83
spend_index SpendCategory.paper = 84
spend_index SpendCategory.paperboard = 85
spend_index SpendCategory.corrugated_cardboard = 86
spend_index SpendCategory.coated_paper_and_building_construction_paper = 87
spend_index SpendCategory.corrugated_card_board_boxes = 88
spend_index SpendCategory.miscellaneous_paper_containers = 89
spend_index SpendCategory.paper_textile_for_medical_use = 90
spend_index SpendCategory.miscellaneous_pulp_paper_and_processed_paper_products = 91
spend_index SpendCategory.printing_plate_making_and_book_binding = 92
spend_index SpendCategory.chemical_fertilizer = 93
spend_index SpendCategory.industrial_soda_chemicals = 94
spend_index SpendCategory.inorganic_pigment = 95
spend_index SpendCategory.compressed_gas_and_liquefied_gas = 96
spend_index SpendCategory.salt = 97
spend_index SpendCategory.miscellaneous_industrial_inorganic_chemicals = 98
spend_index SpendCategory.petrochemical_basic_products = 99
spend_index SpendCategory.petrochemical_aromatic_products_except_synthetic_resin = 100
spend_index SpendCategory.aliphatic_intermediates = 101
spend_index SpendCategory.cyclic_intermediates_synthetic_dyes_and_organic_pigments = 102
spend_index SpendCategory.synthetic_rubber = 103
spend_index SpendCategory.methane_derivatives = 104
spend_index SpendCategory.plasticizers = 105
spend_index SpendCategory.miscellaneous_industrial_organic_chemicals = 106
spend_index SpendCategory.thermo_setting_resins = 107
spend_index SpendCategory.thermoplastics_resins = 108
spend_index SpendCategory.high_function_resins = 109
spend_index SpendCategory.miscellaneous_synthetic_resins = 110
spend_index SpendCategory.chemical_fibers = 111
spend_index SpendCategory.medicines = 112
spend_index SpendCategory.oil_and_fat_products_and_surface_active_agents = 113
spend_index SpendCategory.cosmetics_toilet_preparations_and_dentifrices = 114
spend_index SpendCategory.paint_and_varnishes = 115
spend_index SpendCategory.printing_ink = 116
spend_index SpendCategory.agricultural_chemicals = 117
spend_index SpendCategory.gelatin_and_adhesives = 118
spend_index SpendCategory.photographic_sensitive_materials = 119
spend_index SpendCategory.miscellaneous_final_chemical_products = 120
spend_index SpendCategory.petroleum_refinery_products_including_greases = 121
spend_index SpendCategory.coal_products = 122
spend_index SpendCategory.paving_materials = 123
spend_index SpendCategory.plastic_products = 124
spend_index SpendCategory.tires_and_inner_tubes = 125
spend_index SpendCategory.miscellaneous_rubber_products = 126
spend_index SpendCategory.leather_footwear = 127
spend_index SpendCategory.leather_tanning_leather_products_and_fur_skins_except_leather_footwear =
    128
spend_index SpendCategory.sheet_glass_and_safety_glass = 129
spend_index SpendCategory.glass_fiber_and_glass_fiber_products_nec = 130
spend_index SpendCategory.miscellaneous_glass_products = 131
spend_index SpendCategory.cement = 132
spend_index SpendCategory.ready_mixed_concrete = 133
spend_index SpendCategory.cement_products = 134
spend_index SpendCategory.pottery_china_and_earthenware = 135
spend_index SpendCategory.clay_refractories = 136
spend_index SpendCategory.miscellaneous_structural_clay_products = 137
spend_index SpendCategory.carbon_and_graphite_products = 138
spend_index SpendCategory.abrasive_and_its_products = 139
spend_index SpendCategory.miscellaneous_ceramic_stone_and_clay_products = 140
spend_index SpendCategory.pig_iron = 141
spend_index SpendCategory.ferro_alloys = 142
spend_index SpendCategory.crude_steel_converters = 143
spend_index SpendCategory.crude_steel_electric_furnaces = 144
spend_index SpendCategory.scrap_iron = 145
spend_index SpendCategory.hot_rolled_steel = 146
spend_index SpendCategory.steel_pipes_and_tubes = 147
spend_index SpendCategory.cold_finished_steel = 148
spend_index SpendCategory.coated_steel = 149
spend_index SpendCategory.cast_and_forged_steel = 150
spend_index SpendCategory.cast_iron_pipes_and_tubes = 151
spend_index SpendCategory.cast_and_forged_materials_iron = 152
spend_index SpendCategory.iron_and_steel_shearing_and_slitting = 153
spend_index SpendCategory.miscellaneous_iron_or_steel_products = 154
spend_index SpendCategory.copper = 155
spend_index SpendCategory.lead_and_zinc_including_regenerated_lead = 156
spend_index SpendCategory.aluminum_including_regenerated_aluminum = 157
spend_index SpendCategory.miscellaneous_non_ferrous_metals = 158
spend_index SpendCategory.non_ferrous_metal_scrap = 159
spend_index SpendCategory.electric_wires_and_cables = 160
spend_index SpendCategory.optical_fiber_cables = 161
spend_index SpendCategory.rolled_and_drawn_copper_and_copper_alloys = 162
spend_index SpendCategory.rolled_and_drawn_aluminum = 163
spend_index SpendCategory.non_ferrous_metal_castings_and_forgings = 164
spend_index SpendCategory.nuclear_fuels = 165
spend_index SpendCategory.miscellaneous_non_ferrous_metal_products = 166
spend_index SpendCategory.fabricated_construction_use_metal_products = 167
spend_index SpendCategory.fabricated_architectural_metal_products = 168
spend_index SpendCategory.gas_and_oil_appliances_heating_and_cooking_apparatus = 169
spend_index SpendCategory.bolts_nuts_rivets_and_springs = 170
spend_index SpendCategory.metal_containers_fabricated_plate_and_sheet_metal = 171
spend_index SpendCategory.plumbing_accessories_powder_metallurgy_products_and_tools = 172
spend_index SpendCategory.miscellaneous_metal_products = 173
spend_index SpendCategory.boilers = 174
spend_index SpendCategory.turbines = 175
spend_index SpendCategory.engines = 176
spend_index SpendCategory.pumps_and_compressors = 177
spend_index SpendCategory.conveyors = 178
spend_index SpendCategory.refrigerators_and_air_conditioning_apparatus = 179
spend_index SpendCategory.bearings = 180
spend_index SpendCategory.miscellaneous_general_purpose_machinery = 181
spend_index SpendCategory.machinery_for_agricultural_use = 182
spend_index SpendCategory.machinery_and_equipment_for_construction_and_mining = 183
spend_index SpendCategory.textile_machinery = 184
spend_index SpendCategory.daily_lives_industry_machinery = 185
spend_index SpendCategory.chemical_machinery = 186
spend_index SpendCategory.casting_equipment_and_plastic_processing_machinery = 187
spend_index SpendCategory.metal_machine_tools = 188
spend_index SpendCategory.metal_processing_machinery = 189
spend_index SpendCategory.machinists_precision_tools = 190
spend_index SpendCategory.semiconductor_making_equipment = 191
spend_index SpendCategory.metal_molds = 192
spend_index SpendCategory.vacuum_equipment_and_vacuum_component = 193
spend_index SpendCategory.robots = 194
spend_index SpendCategory.miscellaneous_production_machinery = 195
spend_index SpendCategory.copy_machine = 196
spend_index SpendCategory.miscellaneous_office_machines = 197
spend_index SpendCategory.service_industry_and_amusement_machines = 198
spend_index SpendCategory.measuring_instruments = 199
spend_index SpendCategory.medical_instruments = 200
spend_index SpendCategory.optical_instruments_and_lenses = 201
spend_index SpendCategory.ordnance = 202
spend_index SpendCategory.semiconductor_devices = 203
spend_index SpendCategory.integrated_circuits = 204
spend_index SpendCategory.liquid_crystal_panel = 205
spend_index SpendCategory.flat_panel_and_electron_tubes = 206
spend_index SpendCategory.storage_media = 207
spend_index SpendCategory.electric_circuit = 208
spend_index SpendCategory.miscellaneous_electronic_components = 209
spend_index SpendCategory.rotating_electrical_equipment = 210
spend_index SpendCategory.transformers_and_reactors = 211
spend_index SpendCategory.relay_switches_and_switchboards = 212
spend_index SpendCategory.wiring_devices_and_supplies = 213
spend_index SpendCategory.electrical_equipment_for_internal_combustion_engines = 214
spend_index SpendCategory.miscellaneous_electrical_devices_and_parts = 215
spend_index SpendCategory.household_air_conditioners = 216
spend_index SpendCategory.household_electric_appliances_except_air_conditioners = 217
spend_index SpendCategory.applied_electronic_equipment = 218
spend_index SpendCategory.electric_measuring_instruments = 219
spend_index SpendCategory.electric_bulbs = 220
spend_index SpendCategory.electric_lighting_fixtures_and_apparatus = 221
spend_index SpendCategory.batteries = 222
spend_index SpendCategory.wired_communication_equipment = 223
spend_index SpendCategory.mobile_phone = 224
spend_index SpendCategory.radio_communication_equipment_except_mobile_phone = 225
spend_index SpendCategory.radio_and_television_sets = 226
spend_index SpendCategory.miscellaneous_communication_equipment = 227
spend_index SpendCategory.video_equipment_and_digital_camera = 228
spend_index SpendCategory.electric_audio_equipment = 229
spend_index SpendCategory.personal_computers = 230
spend_index SpendCategory.electronic_computing_equipment_except_personal_computers = 231
spend_index SpendCategory.electronic_computing_equipment_accessory_equipment = 232
spend_index SpendCategory.passenger_motor_cars_hybrid_cars = 233
spend_index SpendCategory.passenger_motor_cars_except_hybrid_cars = 234
spend_index SpendCategory.trucks_buses_and_miscellaneous_cars = 235
spend_index SpendCategory.two_wheel_motor_vehicles = 236
spend_index SpendCategory.internal_combustion_engines_for_motor_vehicles = 237
spend_index SpendCategory.motor_vehicle_parts_and_accessories = 238
spend_index SpendCategory.steel_ships = 239
spend_index SpendCategory.miscellaneous_ships_except_steel_ships = 240
spend_index SpendCategory.internal_combustion_engines_for_vessels = 241
spend_index SpendCategory.repair_of_ships = 242
spend_index SpendCategory.rolling_stock = 243
spend_index SpendCategory.repair_of_rolling_stock = 244
spend_index SpendCategory.aircrafts = 245
spend_index SpendCategory.repair_of_aircrafts = 246
spend_index SpendCategory.bicycles = 247
spend_index SpendCategory.miscellaneous_transport_equipment = 248
spend_index SpendCategory.toys_and_games = 249
spend_index SpendCategory.sporting_and_athletic_goods = 250
spend_index SpendCategory.jewelry_and_adornments = 251
spend_index SpendCategory.watches_and_clocks = 252
spend_index SpendCategory.musical_instruments = 253
spend_index SpendCategory.stationery = 254
spend_index SpendCategory.tatami_straw_matting_and_straw_products = 255
spend_index SpendCategory.audio_and_video_records_other_information_recording_media = 256
spend_index SpendCategory.miscellaneous_manufacturing_products = 257
spend_index SpendCategory.reuse_and_recycling = 258
spend_index SpendCategory.residential_construction_wooden = 259
spend_index SpendCategory.residential_construction_non_wooden = 260
spend_index SpendCategory.non_residential_construction_wooden = 261
spend_index SpendCategory.non_residential_construction_non_wooden = 262
spend_index SpendCategory.repair_of_construction = 263
spend_index SpendCategory.public_construction_of_roads = 264
spend_index
      SpendCategory.public_construction_of_rivers_drainages_and_miscellaneous_public_construction =
    265
spend_index SpendCategory.agricultural_public_construction = 266
spend_index SpendCategory.railway_construction = 267
spend_index SpendCategory.electric_power_facilities_construction = 268
spend_index SpendCategory.telecommunication_facilities_construction = 269
spend_index SpendCategory.miscellaneous_civil_engineering_and_construction = 270
spend_index SpendCategory.electricity = 271
spend_index SpendCategory.gas_supply = 272
spend_index SpendCategory.steam_and_hot_water_supply = 273
spend_index SpendCategory.water_supply = 274
spend_index SpendCategory.industrial_water_supply = 275
spend_index SpendCategory.sewage_disposal = 276
spend_index SpendCategory.waste_management_services_public_corporation = 277
spend_index SpendCategory.waste_management_services = 278
spend_index SpendCategory.wholesale_trade = 279
spend_index SpendCategory.retail_trade = 280
spend_index SpendCategory.financial_service = 281
spend_index SpendCategory.life_insurance = 282
spend_index SpendCategory.non_life_insurance = 283
spend_index SpendCategory.real_estate_agencies_and_managers = 284
spend_index SpendCategory.real_estate_rental_service = 285
spend_index SpendCategory.house_rent = 286
spend_index SpendCategory.house_rent_imputed_house_rent = 287
spend_index SpendCategory.railway_transport_passengers = 288
spend_index SpendCategory.railway_transport_freight = 289
spend_index SpendCategory.bus_transport_service = 290
spend_index SpendCategory.hired_car_and_taxi_transport = 291
spend_index SpendCategory.road_freight_transport_except_self_transport = 292
spend_index SpendCategory.self_transport_passengers = 293
spend_index SpendCategory.self_transport_freight = 294
spend_index SpendCategory.international_shipping = 295
spend_index SpendCategory.coastal_and_inland_water_transport = 296
spend_index SpendCategory.harbor_transport_service = 297
spend_index SpendCategory.air_transport = 298
spend_index SpendCategory.consigned_freight_forwarding = 299
spend_index SpendCategory.storage_facility_service = 300
spend_index SpendCategory.packing_service = 301
spend_index SpendCategory.facility_service_for_road_transport = 302
spend_index SpendCategory.port_and_water_traffic_control_public_corporation = 303
spend_index SpendCategory.port_and_water_traffic_control = 304
spend_index SpendCategory.services_relating_to_water_transport = 305
spend_index SpendCategory.airport_and_air_traffic_control_public_corporation = 306
spend_index SpendCategory.airport_and_air_traffic_control = 307
spend_index SpendCategory.services_relating_to_air_transport = 308
spend_index SpendCategory.travel_agency_and_miscellaneous_services_relating_to_transport = 309
spend_index SpendCategory.postal_services_and_mail_delivery = 310
spend_index SpendCategory.fixed_telecommunications = 311
spend_index SpendCategory.mobile_telecommunications = 312
spend_index SpendCategory.services_relating_to_telecommunications = 313
spend_index SpendCategory.public_broadcasting = 314
spend_index SpendCategory.private_broadcasting = 315
spend_index SpendCategory.cable_broadcasting = 316
spend_index SpendCategory.information_services = 317
spend_index SpendCategory.internet_based_services = 318
spend_index
      SpendCategory.video_picture_sound_information_character_information_production_except_newspaper_or_publication =
    319
spend_index SpendCategory.newspaper = 320
spend_index SpendCategory.publication = 321
spend_index SpendCategory.public_administration_central_government = 322
spend_index SpendCategory.public_administration_local_government = 323
spend_index SpendCategory.school_education_public_institution = 324
spend_index SpendCategory.school_education_npi = 325
spend_index SpendCategory.school_lunch_public_institution = 326
spend_index SpendCategory.school_lunch_npi = 327
spend_index SpendCategory.social_education_public_institution = 328
spend_index SpendCategory.social_education_npi = 329
spend_index SpendCategory.miscellaneous_educational_and_training_institutions_public_institution =
    330
spend_index SpendCategory.miscellaneous_educational_and_training_institutions = 331
spend_index SpendCategory.research_institutes_for_natural_science_public_institution = 332
spend_index SpendCategory.research_institutes_for_cultural_and_social_science_public_institution =
    333
spend_index SpendCategory.research_institutes_for_natural_sciences_npi = 334
spend_index SpendCategory.research_institutes_for_cultural_and_social_science_npi = 335
spend_index SpendCategory.research_institutes_for_natural_sciences = 336
spend_index SpendCategory.research_institutes_for_cultural_and_social_science = 337
spend_index SpendCategory.research_and_development_intra_enterprise = 338
spend_index SpendCategory.medical_service_general_hospitals = 339
spend_index SpendCategory.medical_service_clinics_of_medical_practitioners = 340
spend_index SpendCategory.medical_service_dentistry = 341
spend_index SpendCategory.medical_service_pharmacies = 342
spend_index SpendCategory.medical_service_miscellaneous_medical_service = 343
spend_index SpendCategory.health_and_hygiene_public_institution = 344
spend_index SpendCategory.health_and_hygiene = 345
spend_index SpendCategory.social_insurance = 346
spend_index SpendCategory.social_welfare_public_institution = 347
spend_index SpendCategory.social_welfare_npi = 348
spend_index SpendCategory.social_welfare = 349
spend_index SpendCategory.nursery = 350
spend_index SpendCategory.nursing_care_facility_services = 351
spend_index SpendCategory.nursing_care_except_facility_services = 352
spend_index SpendCategory.membership_based_business_associations = 353
spend_index SpendCategory.private_non_profit_institutions_serving_households_nec = 354
spend_index SpendCategory.goods_rental_and_leasing_except_car_rental = 355
spend_index SpendCategory.car_rental_and_leasing = 356
spend_index SpendCategory.advertising_services = 357
spend_index SpendCategory.motor_vehicle_maintenance_services = 358
spend_index SpendCategory.machine_repair_services = 359
spend_index SpendCategory.judicial_financial_and_accounting_services = 360
spend_index SpendCategory.civil_engineering_and_construction_services = 361
spend_index SpendCategory.worker_dispatching_services = 362
spend_index SpendCategory.building_maintenance_services = 363
spend_index SpendCategory.guard_services = 364
spend_index SpendCategory.slaughterhouse_public_corporation = 365
spend_index SpendCategory.slaughterhouse = 366
spend_index SpendCategory.miscellaneous_business_services = 367
spend_index SpendCategory.accommodations = 368
spend_index SpendCategory.eating_and_drinking_places = 369
spend_index SpendCategory.food_take_out_and_delivery_services = 370
spend_index SpendCategory.laundries = 371
spend_index SpendCategory.barber_shops = 372
spend_index SpendCategory.hair_dressing_and_beauty_salon = 373
spend_index SpendCategory.bathhouses = 374
spend_index SpendCategory.miscellaneous_laundry_beauty_and_bath_service = 375
spend_index SpendCategory.cinemas = 376
spend_index SpendCategory.performances_except_movie_theaters_theatrical_comranies = 377
spend_index SpendCategory.stadiums_and_companies_of_bicycle_horse_motorcar_and_motorboat_races = 378
spend_index SpendCategory.sport_facility_service_public_gardens_and_amusement_parks = 379
spend_index SpendCategory.amusement_and_recreation_facilities_and_services = 380
spend_index SpendCategory.veterinary_service = 381
spend_index SpendCategory.photographic_studios = 382
spend_index SpendCategory.ceremonial_occasions = 383
spend_index
      SpendCategory.supplementary_tutorial_schools_instruction_services_for_arts_culture_and_technical_skills =
    384
spend_index SpendCategory.miscellaneous_repairs_nec = 385
spend_index SpendCategory.miscellaneous_personal_services = 386
spend_index SpendCategory.office_supplies = 387
spend_index SpendCategory.activities_not_elsewhere_classified = 388
