-- ===== src/Lca/SpendFactors.antt =====
-- backend/src/modules/lca/orchestrator.ts: `EMISSION_FACTORS.spend`, in grams for each yen, each a
-- number of digits after the point.
use personal_carbon_footprin.Prelude.{ℕ}
use personal_carbon_footprin.Lca.SpendCategory.{SpendCategory}

-- The decimal `mantissa / 10 ^ places`.
pub record Decimal : Type 0 where
  pub mantissa : ℕ
  pub places : ℕ

abbrev pub decimal : ℕ → ℕ → Decimal
decimal mantissa places = record { mantissa = mantissa; places = places }

unfoldable pub spend_grams : SpendCategory → Decimal
spend_grams SpendCategory.rice = decimal 1192354547 8
spend_grams SpendCategory.wheat_barley_and_the_like = decimal 1809860021 8
spend_grams SpendCategory.potatoes_and_sweet_potatoes = decimal 519244712 8
spend_grams SpendCategory.pulses = decimal 93317688 7
spend_grams SpendCategory.vegetables = decimal 4880996223 9
spend_grams SpendCategory.fruits = decimal 4352712854 9
spend_grams SpendCategory.sugar_crops = decimal 7402732317 9
spend_grams SpendCategory.crops_for_beverages = decimal 1326790958 8
spend_grams SpendCategory.miscellaneous_edible_crops = decimal 1208129272 8
spend_grams SpendCategory.feed_and_forage_crops = decimal 1087713128 8
spend_grams SpendCategory.seeds_and_seedlings = decimal 1754516316 9
spend_grams SpendCategory.flowers_and_plants = decimal 7361678316 9
spend_grams SpendCategory.miscellaneous_inedible_crops = decimal 3375980439 9
spend_grams SpendCategory.dairy_cattle_farming = decimal 1062621965 8
spend_grams SpendCategory.beef_cattle = decimal 115755222 7
spend_grams SpendCategory.hogs = decimal 6767100353 9
spend_grams SpendCategory.hen_eggs = decimal 5349417862 9
spend_grams SpendCategory.chickens = decimal 5839037819 9
spend_grams SpendCategory.miscellaneous_livestock = decimal 3773594235 9
spend_grams SpendCategory.agricultural_services = decimal 2613755213 9
spend_grams SpendCategory.silviculture = decimal 5262358946 10
spend_grams SpendCategory.logs = decimal 2515642019 9
spend_grams SpendCategory.special_forest_products_including_hunting = decimal 3125837152 9
spend_grams SpendCategory.marine_fishery = decimal 8943313634 9
spend_grams SpendCategory.marine_aquaculture = decimal 5065648014 9
spend_grams SpendCategory.inland_water_fishery_and_inland_water_aquaculture = decimal 6492797594 9
spend_grams SpendCategory.coal_mining_crude_petroleum_and_natural_gas = decimal 1338986584 8
spend_grams SpendCategory.gravel_and_quarrying = decimal 5743312452 9
spend_grams SpendCategory.miscellaneous_ores = decimal 8752360282 9
spend_grams SpendCategory.meat = decimal 6670542392 9
spend_grams SpendCategory.dairy_farm_products = decimal 5263942973 9
spend_grams SpendCategory.miscellaneous_livestock_products = decimal 3841553381 9
spend_grams SpendCategory.frozen_fish_and_shellfish = decimal 4722275448 9
spend_grams SpendCategory.salted_dried_or_smoked_seafood = decimal 3626083967 9
spend_grams SpendCategory.bottled_or_canned_seafood = decimal 3814027319 9
spend_grams SpendCategory.fish_paste = decimal 3584470788 9
spend_grams SpendCategory.miscellaneous_processed_seafood = decimal 3340461248 9
spend_grams SpendCategory.grain_milling = decimal 1003117017 8
spend_grams SpendCategory.flour_and_miscellaneous_grain_milled_products = decimal 7087845032 9
spend_grams SpendCategory.noodles = decimal 3684818111 9
spend_grams SpendCategory.bread = decimal 3463234883 9
spend_grams SpendCategory.confectionery = decimal 2677708252 9
spend_grams SpendCategory.preserved_agricultural_foodstuffs = decimal 262640748 8
spend_grams SpendCategory.sugar = decimal 3598369544 9
spend_grams SpendCategory.starch = decimal 804559591 8
spend_grams SpendCategory.dextrose_syrup_and_isomerized_sugar = decimal 5106636853 9
spend_grams SpendCategory.animal_oil_and_fats_vegetable_oil_and_meal = decimal 6701739101 9
spend_grams SpendCategory.condiments_and_seasonings = decimal 3066974728 9
spend_grams SpendCategory.prepared_frozen_foods = decimal 3946727996 9
spend_grams SpendCategory.dishes_sushi_and_lunch_boxes = decimal 3706746122 9
spend_grams SpendCategory.retort_foods = decimal 2757606693 9
spend_grams SpendCategory.miscellaneous_foods = decimal 3125791489 9
spend_grams SpendCategory.refined_sake = decimal 2472754273 9
spend_grams SpendCategory.malt_liquors = decimal 12317143 7
spend_grams SpendCategory.whiskey_and_brandy = decimal 1148900256 9
spend_grams SpendCategory.miscellaneous_liquors = decimal 1351346826 9
spend_grams SpendCategory.tea_and_roasted_coffee = decimal 5799546164 9
spend_grams SpendCategory.soft_drinks = decimal 3907028959 9
spend_grams SpendCategory.manufactured_ice = decimal 5403297346 9
spend_grams SpendCategory.feeds = decimal 5981026923 9
spend_grams SpendCategory.organic_fertilizers_nec = decimal 427713207 8
spend_grams SpendCategory.tobacco = decimal 6531570209 10
spend_grams SpendCategory.fiber_yarns = decimal 6762340615 9
spend_grams
      SpendCategory.cotton_and_staple_fiber_fabrics_including_fabrics_of_synthetic_spun_fibers =
    decimal 7014968896 9
spend_grams
      SpendCategory.silk_and_artificial_silk_fabrics_including_fabrics_of_synthetic_filament_fibers =
    decimal 7498356625 9
spend_grams SpendCategory.miscellaneous_fabrics = decimal 6555704365 9
spend_grams SpendCategory.knitting_fabrics = decimal 5737721231 9
spend_grams SpendCategory.yarn_and_fabric_dyeing_and_finishing_processing_on_commission_only =
    decimal 5907685935 9
spend_grams SpendCategory.miscellaneous_fabricated_textile_products = decimal 6099869011 9
spend_grams SpendCategory.woven_fabric_apparel = decimal 3020592817 9
spend_grams SpendCategory.knitted_apparel = decimal 4688810542 9
spend_grams SpendCategory.miscellaneous_wearing_apparel_and_clothing_accessories =
    decimal 4211777965 9
spend_grams SpendCategory.bedding = decimal 3435076966 9
spend_grams SpendCategory.carpets_and_floor_mats = decimal 7937884744 9
spend_grams SpendCategory.miscellaneous_ready_made_textile_products = decimal 3901367252 9
spend_grams SpendCategory.timber = decimal 2097972161 9
spend_grams SpendCategory.plywood_glued_laminated_timber = decimal 2155046282 9
spend_grams SpendCategory.wooden_chips = decimal 3020356584 9
spend_grams SpendCategory.miscellaneous_wooden_products = decimal 2383999035 9
spend_grams SpendCategory.wooden_furniture = decimal 1964937372 9
spend_grams SpendCategory.metallic_furniture = decimal 4583990757 9
spend_grams SpendCategory.wooden_fixtures = decimal 1879664888 9
spend_grams SpendCategory.miscellaneous_furniture_and_fixtures = decimal 3112112716 9
spend_grams SpendCategory.pulp = decimal 180220061 7
spend_grams SpendCategory.paper = decimal 135131753 7
spend_grams SpendCategory.paperboard = decimal 1409611853 8
spend_grams SpendCategory.corrugated_cardboard = decimal 8165338397 9
spend_grams SpendCategory.coated_paper_and_building_construction_paper = decimal 4894059225 9
spend_grams SpendCategory.corrugated_card_board_boxes = decimal 3470695463 9
spend_grams SpendCategory.miscellaneous_paper_containers = decimal 4729684078 9
spend_grams SpendCategory.paper_textile_for_medical_use = decimal 3918526736 9
spend_grams SpendCategory.miscellaneous_pulp_paper_and_processed_paper_products =
    decimal 4387343139 9
spend_grams SpendCategory.printing_plate_making_and_book_binding = decimal 303258108 8
spend_grams SpendCategory.chemical_fertilizer = decimal 1687795224 8
spend_grams SpendCategory.industrial_soda_chemicals = decimal 1489457756 8
spend_grams SpendCategory.inorganic_pigment = decimal 121446972 7
spend_grams SpendCategory.compressed_gas_and_liquefied_gas = decimal 1275486967 8
spend_grams SpendCategory.salt = decimal 668660253 8
spend_grams SpendCategory.miscellaneous_industrial_inorganic_chemicals = decimal 4798139771 9
spend_grams SpendCategory.petrochemical_basic_products = decimal 2089032064 8
spend_grams SpendCategory.petrochemical_aromatic_products_except_synthetic_resin =
    decimal 1694024459 8
spend_grams SpendCategory.aliphatic_intermediates = decimal 1678282859 8
spend_grams SpendCategory.cyclic_intermediates_synthetic_dyes_and_organic_pigments =
    decimal 1586327547 8
spend_grams SpendCategory.synthetic_rubber = decimal 1612108755 8
spend_grams SpendCategory.methane_derivatives = decimal 8992844519 9
spend_grams SpendCategory.plasticizers = decimal 8138073685 9
spend_grams SpendCategory.miscellaneous_industrial_organic_chemicals = decimal 9524669684 9
spend_grams SpendCategory.thermo_setting_resins = decimal 9512631517 9
spend_grams SpendCategory.thermoplastics_resins = decimal 1177294118 8
spend_grams SpendCategory.high_function_resins = decimal 882439932 8
spend_grams SpendCategory.miscellaneous_synthetic_resins = decimal 105596306 7
spend_grams SpendCategory.chemical_fibers = decimal 2128504133 8
spend_grams SpendCategory.medicines = decimal 2949538166 9
spend_grams SpendCategory.oil_and_fat_products_and_surface_active_agents = decimal 4684770453 9
spend_grams SpendCategory.cosmetics_toilet_preparations_and_dentifrices = decimal 262639714 8
spend_grams SpendCategory.paint_and_varnishes = decimal 7993314354 9
spend_grams SpendCategory.printing_ink = decimal 5730263888 9
spend_grams SpendCategory.agricultural_chemicals = decimal 3340163843 9
spend_grams SpendCategory.gelatin_and_adhesives = decimal 4542759573 9
spend_grams SpendCategory.photographic_sensitive_materials = decimal 3337646017 9
spend_grams SpendCategory.miscellaneous_final_chemical_products = decimal 505408055 8
spend_grams SpendCategory.petroleum_refinery_products_including_greases = decimal 1001258791 8
spend_grams SpendCategory.coal_products = decimal 2545052561 8
spend_grams SpendCategory.paving_materials = decimal 6703726198 9
spend_grams SpendCategory.plastic_products = decimal 4287992244 9
spend_grams SpendCategory.tires_and_inner_tubes = decimal 4950823138 9
spend_grams SpendCategory.miscellaneous_rubber_products = decimal 2970643582 9
spend_grams SpendCategory.leather_footwear = decimal 1677484847 9
spend_grams SpendCategory.leather_tanning_leather_products_and_fur_skins_except_leather_footwear =
    decimal 2196189624 9
spend_grams SpendCategory.sheet_glass_and_safety_glass = decimal 4171713966 9
spend_grams SpendCategory.glass_fiber_and_glass_fiber_products_nec = decimal 4908306671 9
spend_grams SpendCategory.miscellaneous_glass_products = decimal 4261201749 9
spend_grams SpendCategory.cement = decimal 1116256884 7
spend_grams SpendCategory.ready_mixed_concrete = decimal 2329715277 8
spend_grams SpendCategory.cement_products = decimal 8426477329 9
spend_grams SpendCategory.pottery_china_and_earthenware = decimal 6912761042 9
spend_grams SpendCategory.clay_refractories = decimal 6200425417 9
spend_grams SpendCategory.miscellaneous_structural_clay_products = decimal 8892756318 9
spend_grams SpendCategory.carbon_and_graphite_products = decimal 8575711813 9
spend_grams SpendCategory.abrasive_and_its_products = decimal 408100739 8
spend_grams SpendCategory.miscellaneous_ceramic_stone_and_clay_products = decimal 951642859 8
spend_grams SpendCategory.pig_iron = decimal 5440517155 8
spend_grams SpendCategory.ferro_alloys = decimal 2173461216 8
spend_grams SpendCategory.crude_steel_converters = decimal 3664148804 8
spend_grams SpendCategory.crude_steel_electric_furnaces = decimal 1488730384 8
spend_grams SpendCategory.scrap_iron = decimal 0 0
spend_grams SpendCategory.hot_rolled_steel = decimal 2448838019 8
spend_grams SpendCategory.steel_pipes_and_tubes = decimal 1290038137 8
spend_grams SpendCategory.cold_finished_steel = decimal 1511592086 8
spend_grams SpendCategory.coated_steel = decimal 1009288093 8
spend_grams SpendCategory.cast_and_forged_steel = decimal 1155340218 8
spend_grams SpendCategory.cast_iron_pipes_and_tubes = decimal 6887853481 9
spend_grams SpendCategory.cast_and_forged_materials_iron = decimal 1391391143 8
spend_grams SpendCategory.iron_and_steel_shearing_and_slitting = decimal 1477730848 8
spend_grams SpendCategory.miscellaneous_iron_or_steel_products = decimal 21761351 6
spend_grams SpendCategory.copper = decimal 7305626895 9
spend_grams SpendCategory.lead_and_zinc_including_regenerated_lead = decimal 8128325402 9
spend_grams SpendCategory.aluminum_including_regenerated_aluminum = decimal 4178021372 9
spend_grams SpendCategory.miscellaneous_non_ferrous_metals = decimal 3949162513 9
spend_grams SpendCategory.non_ferrous_metal_scrap = decimal 0 0
spend_grams SpendCategory.electric_wires_and_cables = decimal 5116736541 9
spend_grams SpendCategory.optical_fiber_cables = decimal 4148591339 9
spend_grams SpendCategory.rolled_and_drawn_copper_and_copper_alloys = decimal 4973848055 9
spend_grams SpendCategory.rolled_and_drawn_aluminum = decimal 2898733832 9
spend_grams SpendCategory.non_ferrous_metal_castings_and_forgings = decimal 4763322877 9
spend_grams SpendCategory.nuclear_fuels = decimal 1172989526 9
spend_grams SpendCategory.miscellaneous_non_ferrous_metal_products = decimal 3524013149 9
spend_grams SpendCategory.fabricated_construction_use_metal_products = decimal 6932975243 9
spend_grams SpendCategory.fabricated_architectural_metal_products = decimal 4181528261 9
spend_grams SpendCategory.gas_and_oil_appliances_heating_and_cooking_apparatus =
    decimal 5134391247 9
spend_grams SpendCategory.bolts_nuts_rivets_and_springs = decimal 6538988285 9
spend_grams SpendCategory.metal_containers_fabricated_plate_and_sheet_metal = decimal 464287224 8
spend_grams SpendCategory.plumbing_accessories_powder_metallurgy_products_and_tools =
    decimal 383164745 8
spend_grams SpendCategory.miscellaneous_metal_products = decimal 4716378756 9
spend_grams SpendCategory.boilers = decimal 2219480101 9
spend_grams SpendCategory.turbines = decimal 3789506008 9
spend_grams SpendCategory.engines = decimal 3808299691 9
spend_grams SpendCategory.pumps_and_compressors = decimal 3151625769 9
spend_grams SpendCategory.conveyors = decimal 3266915473 9
spend_grams SpendCategory.refrigerators_and_air_conditioning_apparatus = decimal 2515148218 8
spend_grams SpendCategory.bearings = decimal 4917695176 9
spend_grams SpendCategory.miscellaneous_general_purpose_machinery = decimal 3513255586 9
spend_grams SpendCategory.machinery_for_agricultural_use = decimal 3072671776 9
spend_grams SpendCategory.machinery_and_equipment_for_construction_and_mining = decimal 3327782292 9
spend_grams SpendCategory.textile_machinery = decimal 3121149708 9
spend_grams SpendCategory.daily_lives_industry_machinery = decimal 3062063242 9
spend_grams SpendCategory.chemical_machinery = decimal 2395936753 9
spend_grams SpendCategory.casting_equipment_and_plastic_processing_machinery = decimal 2769706845 9
spend_grams SpendCategory.metal_machine_tools = decimal 2939975956 9
spend_grams SpendCategory.metal_processing_machinery = decimal 2923017387 9
spend_grams SpendCategory.machinists_precision_tools = decimal 3198369393 9
spend_grams SpendCategory.semiconductor_making_equipment = decimal 2162658061 9
spend_grams SpendCategory.metal_molds = decimal 3529541004 9
spend_grams SpendCategory.vacuum_equipment_and_vacuum_component = decimal 527356049 8
spend_grams SpendCategory.robots = decimal 278979725 8
spend_grams SpendCategory.miscellaneous_production_machinery = decimal 3530517513 9
spend_grams SpendCategory.copy_machine = decimal 2862503974 9
spend_grams SpendCategory.miscellaneous_office_machines = decimal 2515555894 9
spend_grams SpendCategory.service_industry_and_amusement_machines = decimal 3595148394 9
spend_grams SpendCategory.measuring_instruments = decimal 2012819299 9
spend_grams SpendCategory.medical_instruments = decimal 2705259569 9
spend_grams SpendCategory.optical_instruments_and_lenses = decimal 2850872069 9
spend_grams SpendCategory.ordnance = decimal 241973844 8
spend_grams SpendCategory.semiconductor_devices = decimal 6771377088 9
spend_grams SpendCategory.integrated_circuits = decimal 3411954759 9
spend_grams SpendCategory.liquid_crystal_panel = decimal 546902015 8
spend_grams SpendCategory.flat_panel_and_electron_tubes = decimal 3634117007 9
spend_grams SpendCategory.storage_media = decimal 3413223905 9
spend_grams SpendCategory.electric_circuit = decimal 3026362183 9
spend_grams SpendCategory.miscellaneous_electronic_components = decimal 285060549 8
spend_grams SpendCategory.rotating_electrical_equipment = decimal 4042774053 9
spend_grams SpendCategory.transformers_and_reactors = decimal 3589676585 9
spend_grams SpendCategory.relay_switches_and_switchboards = decimal 2978024221 9
spend_grams SpendCategory.wiring_devices_and_supplies = decimal 243580208 8
spend_grams SpendCategory.electrical_equipment_for_internal_combustion_engines =
    decimal 2981319125 9
spend_grams SpendCategory.miscellaneous_electrical_devices_and_parts = decimal 4064048013 9
spend_grams SpendCategory.household_air_conditioners = decimal 3273720596 9
spend_grams SpendCategory.household_electric_appliances_except_air_conditioners =
    decimal 3358000214 9
spend_grams SpendCategory.applied_electronic_equipment = decimal 265927231 8
spend_grams SpendCategory.electric_measuring_instruments = decimal 2126702953 9
spend_grams SpendCategory.electric_bulbs = decimal 2278897921 9
spend_grams SpendCategory.electric_lighting_fixtures_and_apparatus = decimal 2696289926 9
spend_grams SpendCategory.batteries = decimal 3424193013 9
spend_grams SpendCategory.wired_communication_equipment = decimal 2980606404 9
spend_grams SpendCategory.mobile_phone = decimal 3256252111 9
spend_grams SpendCategory.radio_communication_equipment_except_mobile_phone = decimal 2780141363 9
spend_grams SpendCategory.radio_and_television_sets = decimal 3270446213 9
spend_grams SpendCategory.miscellaneous_communication_equipment = decimal 2242092771 9
spend_grams SpendCategory.video_equipment_and_digital_camera = decimal 2959182247 9
spend_grams SpendCategory.electric_audio_equipment = decimal 302443395 8
spend_grams SpendCategory.personal_computers = decimal 2510342851 9
spend_grams SpendCategory.electronic_computing_equipment_except_personal_computers =
    decimal 2198867971 9
spend_grams SpendCategory.electronic_computing_equipment_accessory_equipment = decimal 3010260954 9
spend_grams SpendCategory.passenger_motor_cars_hybrid_cars = decimal 3262955932 9
spend_grams SpendCategory.passenger_motor_cars_except_hybrid_cars = decimal 3334086073 9
spend_grams SpendCategory.trucks_buses_and_miscellaneous_cars = decimal 3463152686 9
spend_grams SpendCategory.two_wheel_motor_vehicles = decimal 3074260855 9
spend_grams SpendCategory.internal_combustion_engines_for_motor_vehicles = decimal 330198669 8
spend_grams SpendCategory.motor_vehicle_parts_and_accessories = decimal 3212106503 9
spend_grams SpendCategory.steel_ships = decimal 8633126263 9
spend_grams SpendCategory.miscellaneous_ships_except_steel_ships = decimal 5208341682 9
spend_grams SpendCategory.internal_combustion_engines_for_vessels = decimal 5873976686 9
spend_grams SpendCategory.repair_of_ships = decimal 5005460819 9
spend_grams SpendCategory.rolling_stock = decimal 5938023689 9
spend_grams SpendCategory.repair_of_rolling_stock = decimal 6148066932 9
spend_grams SpendCategory.aircrafts = decimal 3963797112 9
spend_grams SpendCategory.repair_of_aircrafts = decimal 3029473244 9
spend_grams SpendCategory.bicycles = decimal 6411616931 9
spend_grams SpendCategory.miscellaneous_transport_equipment = decimal 5296486294 9
spend_grams SpendCategory.toys_and_games = decimal 231354305 8
spend_grams SpendCategory.sporting_and_athletic_goods = decimal 3678023263 9
spend_grams SpendCategory.jewelry_and_adornments = decimal 2451013339 9
spend_grams SpendCategory.watches_and_clocks = decimal 2035845459 9
spend_grams SpendCategory.musical_instruments = decimal 2109408233 9
spend_grams SpendCategory.stationery = decimal 2465516251 9
spend_grams SpendCategory.tatami_straw_matting_and_straw_products = decimal 3194862191 9
spend_grams SpendCategory.audio_and_video_records_other_information_recording_media =
    decimal 1532774102 9
spend_grams SpendCategory.miscellaneous_manufacturing_products = decimal 2749316817 9
spend_grams SpendCategory.reuse_and_recycling = decimal 3857199603 9
spend_grams SpendCategory.residential_construction_wooden = decimal 2046680739 9
spend_grams SpendCategory.residential_construction_non_wooden = decimal 3107707691 9
spend_grams SpendCategory.non_residential_construction_wooden = decimal 2410477496 9
spend_grams SpendCategory.non_residential_construction_non_wooden = decimal 2806162685 9
spend_grams SpendCategory.repair_of_construction = decimal 2657569355 9
spend_grams SpendCategory.public_construction_of_roads = decimal 3472868843 9
spend_grams
      SpendCategory.public_construction_of_rivers_drainages_and_miscellaneous_public_construction =
    decimal 2823171371 9
spend_grams SpendCategory.agricultural_public_construction = decimal 3402439444 9
spend_grams SpendCategory.railway_construction = decimal 3347046556 9
spend_grams SpendCategory.electric_power_facilities_construction = decimal 2127558234 9
spend_grams SpendCategory.telecommunication_facilities_construction = decimal 1619454178 9
spend_grams SpendCategory.miscellaneous_civil_engineering_and_construction = decimal 3288441828 9
spend_grams SpendCategory.electricity = decimal 2672534593 8
spend_grams SpendCategory.gas_supply = decimal 7342969153 9
spend_grams SpendCategory.steam_and_hot_water_supply = decimal 1891832067 8
spend_grams SpendCategory.water_supply = decimal 1877302575 9
spend_grams SpendCategory.industrial_water_supply = decimal 1857923837 9
spend_grams SpendCategory.sewage_disposal = decimal 7030560002 9
spend_grams SpendCategory.waste_management_services_public_corporation = decimal 1638526773 8
spend_grams SpendCategory.waste_management_services = decimal 8267753536 9
spend_grams SpendCategory.wholesale_trade = decimal 8706565105 10
spend_grams SpendCategory.retail_trade = decimal 1591842097 9
spend_grams SpendCategory.financial_service = decimal 5839918303 10
spend_grams SpendCategory.life_insurance = decimal 5044811332 10
spend_grams SpendCategory.non_life_insurance = decimal 6629221517 10
spend_grams SpendCategory.real_estate_agencies_and_managers = decimal 3605840609 10
spend_grams SpendCategory.real_estate_rental_service = decimal 5731711679 10
spend_grams SpendCategory.house_rent = decimal 3763644974 10
spend_grams SpendCategory.house_rent_imputed_house_rent = decimal 1155724638 10
spend_grams SpendCategory.railway_transport_passengers = decimal 3094838594 9
spend_grams SpendCategory.railway_transport_freight = decimal 4762606254 9
spend_grams SpendCategory.bus_transport_service = decimal 4284292889 9
spend_grams SpendCategory.hired_car_and_taxi_transport = decimal 2003682182 9
spend_grams SpendCategory.road_freight_transport_except_self_transport = decimal 4062553337 9
spend_grams SpendCategory.self_transport_passengers = decimal 9092031738 9
spend_grams SpendCategory.self_transport_freight = decimal 1301457364 8
spend_grams SpendCategory.international_shipping = decimal 2129084316 9
spend_grams SpendCategory.coastal_and_inland_water_transport = decimal 142610906 7
spend_grams SpendCategory.harbor_transport_service = decimal 1342379779 9
spend_grams SpendCategory.air_transport = decimal 480446444 8
spend_grams SpendCategory.consigned_freight_forwarding = decimal 2170994411 9
spend_grams SpendCategory.storage_facility_service = decimal 1437916498 9
spend_grams SpendCategory.packing_service = decimal 199704545 8
spend_grams SpendCategory.facility_service_for_road_transport = decimal 9770883705 10
spend_grams SpendCategory.port_and_water_traffic_control_public_corporation = decimal 1507750786 9
spend_grams SpendCategory.port_and_water_traffic_control = decimal 1086536491 9
spend_grams SpendCategory.services_relating_to_water_transport = decimal 9107182403 10
spend_grams SpendCategory.airport_and_air_traffic_control_public_corporation = decimal 1269011099 9
spend_grams SpendCategory.airport_and_air_traffic_control = decimal 1319160633 9
spend_grams SpendCategory.services_relating_to_air_transport = decimal 1450262961 9
spend_grams SpendCategory.travel_agency_and_miscellaneous_services_relating_to_transport =
    decimal 8886755382 10
spend_grams SpendCategory.postal_services_and_mail_delivery = decimal 113554407 8
spend_grams SpendCategory.fixed_telecommunications = decimal 9653540034 10
spend_grams SpendCategory.mobile_telecommunications = decimal 9266934277 10
spend_grams SpendCategory.services_relating_to_telecommunications = decimal 6782085258 10
spend_grams SpendCategory.public_broadcasting = decimal 7626326825 10
spend_grams SpendCategory.private_broadcasting = decimal 8200528074 10
spend_grams SpendCategory.cable_broadcasting = decimal 7776313554 10
spend_grams SpendCategory.information_services = decimal 6328044922 10
spend_grams SpendCategory.internet_based_services = decimal 5803673285 10
spend_grams
      SpendCategory.video_picture_sound_information_character_information_production_except_newspaper_or_publication =
    decimal 9411313624 10
spend_grams SpendCategory.newspaper = decimal 3054206861 9
spend_grams SpendCategory.publication = decimal 9348798051 10
spend_grams SpendCategory.public_administration_central_government = decimal 123771511 8
spend_grams SpendCategory.public_administration_local_government = decimal 9313876073 10
spend_grams SpendCategory.school_education_public_institution = decimal 1141810168 9
spend_grams SpendCategory.school_education_npi = decimal 1040712707 9
spend_grams SpendCategory.school_lunch_public_institution = decimal 3019113257 9
spend_grams SpendCategory.school_lunch_npi = decimal 2910417394 9
spend_grams SpendCategory.social_education_public_institution = decimal 2540379998 9
spend_grams SpendCategory.social_education_npi = decimal 4505693536 9
spend_grams SpendCategory.miscellaneous_educational_and_training_institutions_public_institution =
    decimal 3014921015 9
spend_grams SpendCategory.miscellaneous_educational_and_training_institutions = decimal 1371318707 9
spend_grams SpendCategory.research_institutes_for_natural_science_public_institution =
    decimal 1052197181 9
spend_grams SpendCategory.research_institutes_for_cultural_and_social_science_public_institution =
    decimal 1040756421 9
spend_grams SpendCategory.research_institutes_for_natural_sciences_npi = decimal 9562370781 10
spend_grams SpendCategory.research_institutes_for_cultural_and_social_science_npi =
    decimal 9568994907 10
spend_grams SpendCategory.research_institutes_for_natural_sciences = decimal 3469070739 9
spend_grams SpendCategory.research_institutes_for_cultural_and_social_science = decimal 1003665715 9
spend_grams SpendCategory.research_and_development_intra_enterprise = decimal 1208098264 9
spend_grams SpendCategory.medical_service_general_hospitals = decimal 1303151037 9
spend_grams SpendCategory.medical_service_clinics_of_medical_practitioners = decimal 1438618 6
spend_grams SpendCategory.medical_service_dentistry = decimal 9006381901 10
spend_grams SpendCategory.medical_service_pharmacies = decimal 2110106956 9
spend_grams SpendCategory.medical_service_miscellaneous_medical_service = decimal 6798278694 10
spend_grams SpendCategory.health_and_hygiene_public_institution = decimal 1579030064 9
spend_grams SpendCategory.health_and_hygiene = decimal 6522248965 10
spend_grams SpendCategory.social_insurance = decimal 2021671754 9
spend_grams SpendCategory.social_welfare_public_institution = decimal 1050035532 9
spend_grams SpendCategory.social_welfare_npi = decimal 1282843989 9
spend_grams SpendCategory.social_welfare = decimal 8745712736 10
spend_grams SpendCategory.nursery = decimal 1038884993 9
spend_grams SpendCategory.nursing_care_facility_services = decimal 1270616554 9
spend_grams SpendCategory.nursing_care_except_facility_services = decimal 1017147139 9
spend_grams SpendCategory.membership_based_business_associations = decimal 1513190174 9
spend_grams SpendCategory.private_non_profit_institutions_serving_households_nec =
    decimal 151669905 8
spend_grams SpendCategory.goods_rental_and_leasing_except_car_rental = decimal 8646629225 10
spend_grams SpendCategory.car_rental_and_leasing = decimal 9173445753 10
spend_grams SpendCategory.advertising_services = decimal 9534959621 10
spend_grams SpendCategory.motor_vehicle_maintenance_services = decimal 1962779831 9
spend_grams SpendCategory.machine_repair_services = decimal 2360447022 9
spend_grams SpendCategory.judicial_financial_and_accounting_services = decimal 5329172091 10
spend_grams SpendCategory.civil_engineering_and_construction_services = decimal 1003715759 9
spend_grams SpendCategory.worker_dispatching_services = decimal 7885664375 11
spend_grams SpendCategory.building_maintenance_services = decimal 7011267498 10
spend_grams SpendCategory.guard_services = decimal 3752195704 10
spend_grams SpendCategory.slaughterhouse_public_corporation = decimal 2474801147 9
spend_grams SpendCategory.slaughterhouse = decimal 3010063692 9
spend_grams SpendCategory.miscellaneous_business_services = decimal 4359909017 10
spend_grams SpendCategory.accommodations = decimal 4668260699 9
spend_grams SpendCategory.eating_and_drinking_places = decimal 287358367 8
spend_grams SpendCategory.food_take_out_and_delivery_services = decimal 2335044737 9
spend_grams SpendCategory.laundries = decimal 2694324138 9
spend_grams SpendCategory.barber_shops = decimal 2150922372 9
spend_grams SpendCategory.hair_dressing_and_beauty_salon = decimal 154748545 8
spend_grams SpendCategory.bathhouses = decimal 1071097694 8
spend_grams SpendCategory.miscellaneous_laundry_beauty_and_bath_service = decimal 179440374 8
spend_grams SpendCategory.cinemas = decimal 4246782115 9
spend_grams SpendCategory.performances_except_movie_theaters_theatrical_comranies =
    decimal 1571424812 9
spend_grams SpendCategory.stadiums_and_companies_of_bicycle_horse_motorcar_and_motorboat_races =
    decimal 1632999889 9
spend_grams SpendCategory.sport_facility_service_public_gardens_and_amusement_parks =
    decimal 1986684358 9
spend_grams SpendCategory.amusement_and_recreation_facilities_and_services = decimal 2570455794 9
spend_grams SpendCategory.veterinary_service = decimal 1016389648 9
spend_grams SpendCategory.photographic_studios = decimal 1381082635 9
spend_grams SpendCategory.ceremonial_occasions = decimal 1891495928 9
spend_grams
      SpendCategory.supplementary_tutorial_schools_instruction_services_for_arts_culture_and_technical_skills =
    decimal 1027363003 9
spend_grams SpendCategory.miscellaneous_repairs_nec = decimal 1711411223 9
spend_grams SpendCategory.miscellaneous_personal_services = decimal 1186536769 9
spend_grams SpendCategory.office_supplies = decimal 4393444897 9
spend_grams SpendCategory.activities_not_elsewhere_classified = decimal 1160815572 9
